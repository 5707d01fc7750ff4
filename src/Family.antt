-- ===== src/Family.antt =====
-- Waiting and exiting in src/userprog/process.c: parents and children with the three semaphores in
-- each `struct thread`. A thread goes by its tid. Each operation is cut at the calls that can block:
-- a `sema_down` is a step of its own, which a thread can take only if the value is above 0. The files,
-- pages and the directory that `process_exit` gives back are the subject of other modules.
pub mod Invariant
pub mod Steps
pub mod Reap
pub mod Exit
pub mod Run
pub mod Freed
pub mod Status
mod Tests
use operating_system.Common.{
  ℕ, suc, ◌+◌, ◌-◌, Bool, true, false, not, ◌&&◌, ◌||◌, Option, none, some, List, [], ◌∷◌, ◌++◌,
  ◌==◌, ltb, if◌then◌else◌, ◌>>=◌, ◌>>◌, assert,
}
use operating_system.Common.Int.{ℤ, negsuc}

-- Where a user process stands: in `start_process` before `load` has ended; in its program or between
-- two calls; in `process_wait` for a child, past `sema_down (&Child->Exit_sema)`; in
-- `process_exit` past `sema_up` of a listed child, which `list_next` is to read; or at the end of
-- `process_exit`, before `sema_down (&cur->Destroy_sema)` has ended.
pub data Stage : Type 0 where
  loading : Stage
  running : Stage
  reaping : (child : ℕ) → Stage
  releasing : (child : ℕ) → Stage
  exiting : Stage

-- The part of `struct thread` that parents and children share; `has_pagedir` is `pagedir != NULL`.
pub record Proc : Type 0 where
  pub stage : Stage
  pub exit_status : ℤ
  pub is_loaded : Bool
  pub has_pagedir : Bool
  pub children : List ℕ
  pub load_sema : ℕ
  pub exit_sema : ℕ
  pub destroy_sema : ℕ

-- The threads by their tids; `none` is a tid not in use, or a page that was freed.
abbrev pub Family : Type 0
Family = ℕ → Option Proc

abbrev pub put : Family → ℕ → Option Proc → Family
put f p o q = if q == p then o else f q

abbrev pub mem : List ℕ → ℕ → Bool
mem [] c = false
mem (x ∷ xs) c = if x == c then true else mem xs c

-- `list_remove (&Child->Child_elem)`
abbrev pub remove : List ℕ → ℕ → List ℕ
remove [] c = []
remove (x ∷ xs) c = if x == c then xs else x ∷ remove xs c

-- `init_thread`: the list is empty and the semaphores are 0.
abbrev pub new_proc : Proc
new_proc = record {
  stage = loading;
  exit_status = negsuc 0;
  is_loaded = false;
  has_pagedir = false;
  children = [];
  load_sema = 0;
  exit_sema = 0;
  destroy_sema = 0;
}

abbrev pub is_running : Stage → Bool
is_running running = true
is_running s = false

abbrev pub is_loading : Stage → Bool
is_loading loading = true
is_loading s = false

abbrev pub is_exiting : Stage → Bool
is_exiting exiting = true
is_exiting s = false

abbrev pub is_reaping : Stage → ℕ → Bool
is_reaping (reaping d) c = d == c
is_reaping s c = false

abbrev pub is_nil : List ℕ → Bool
is_nil [] = true
is_nil (x ∷ xs) = false

abbrev pub is_free : Option Proc → Bool
is_free none = true
is_free (some t) = false

abbrev pub released_child : Stage → Option ℕ
released_child (releasing c) = some c
released_child s = none

-- `thread_create` in `process_execute`: `c` is a fresh tid.
unfoldable pub spawn : Family → (p c : ℕ) → Option Family
spawn f p c = do
  parent ← f p
  assert (is_running parent.stage)
  assert (is_free (f c))
  some (
      put (put f c (some new_proc)) p
        (some (record parent { children = parent.children ++ (c ∷ []) })))

-- `start_process` once `load` has answered `success`; `created` says whether a load that failed had
-- made the page directory before.
unfoldable pub start_process : Family → (c : ℕ) → (success created : Bool) → Option Family
start_process f c success created = do
  child ← f c
  assert (is_loading child.stage)
  some (
      put f c (
        some (record child {
          stage = running;
          is_loaded = success;
          has_pagedir = success || created;
          load_sema = child.load_sema + 1;
        })))

-- `process_execute` past `sema_down (&Child->Load_sema)`: whether the child was loaded.
unfoldable pub execute_loaded : Family → (p c : ℕ) → Option (Bool × Family)
execute_loaded f p c = do
  parent ← f p
  assert (is_running parent.stage && mem parent.children c)
  child ← f c
  assert (ltb 0 child.load_sema)
  some (child.is_loaded, put f c (some (record child { load_sema = child.load_sema - 1 })))

-- `list_next` of the entry of `c`: the children after it.
abbrev pub after : List ℕ → ℕ → List ℕ
after [] c = []
after (x ∷ xs) c = if x == c then xs else after xs c

-- `process_exit` with the children that are not signalled yet: `sema_up (&t->Destroy_sema)` of the
-- next one, where others may run; or, with none left, the end of the function up to
-- `sema_down (&cur->Destroy_sema)`. Without a page directory it does not wait there, and the thread
-- dies at once.
unfoldable pub release : Family → (p : ℕ) → Proc → List ℕ → Option Family
release f p cur [] = some (
    put f p (
      if cur.has_pagedir
      then some (record cur { stage = exiting; exit_sema = cur.exit_sema + 1 })
      else none))
release f p cur (c ∷ cs) = do
  child ← f c
  some (
      put (put f c (some (record child { destroy_sema = child.destroy_sema + 1 }))) p
        (some (record cur { stage = releasing c })))

-- `process_exit` up to its first `sema_up`; `status` is what the system call `exit` stored before.
unfoldable pub process_exit : Family → (p : ℕ) → (status : ℤ) → Option Family
process_exit f p status = do
  cur ← f p
  assert (is_running cur.stage)
  release f p (record cur { exit_status = status }) cur.children

-- `process_exit` from `e = list_next (e)` on, after the `sema_up` of a child: `none` if the page of that
-- child, which holds `e`, was freed.
unfoldable pub release_next : Family → (p : ℕ) → Option Family
release_next f p = do
  cur ← f p
  c ← released_child cur.stage
  child ← f c
  release f p cur (after cur.children c)

-- `sema_down (&cur->Destroy_sema)` has ended: the thread dies and its page is freed.
unfoldable pub die : Family → (c : ℕ) → Option Family
die f c = do
  child ← f c
  assert (is_exiting child.stage && ltb 0 child.destroy_sema)
  some (put f c none)

-- `process_wait` of a child past `sema_down (&Child->Exit_sema)`.
unfoldable pub wait_exit : Family → (p c : ℕ) → Option Family
wait_exit f p c = do
  parent ← f p
  assert (is_running parent.stage && mem parent.children c)
  child ← f c
  assert (ltb 0 child.exit_sema)
  some (
      put (put f c (some (record child { exit_sema = child.exit_sema - 1 }))) p
        (some (record parent { stage = reaping c })))

-- The rest of `process_wait`, with the status that it returns.
unfoldable pub wait_reap : Family → (p c : ℕ) → Option (ℤ × Family)
wait_reap f p c = do
  parent ← f p
  assert (is_reaping parent.stage c)
  child ← f c
  some (
    child.exit_status,
    put (put f c (some (record child { destroy_sema = child.destroy_sema + 1 }))) p
        (some (record parent { stage = running; children = remove parent.children c })),
  )

-- `get_child_process` finds no child of that tid: `process_wait` returns -1 at once.
unfoldable pub wait_none : Family → (p c : ℕ) → Option ℤ
wait_none f p c = do
  parent ← f p
  assert (is_running parent.stage && not (mem parent.children c))
  some (negsuc 0)

-- What a thread does next.
pub data Event : Type 0 where
  spawns : (p c : ℕ) → Event
  starts : (c : ℕ) (success created : Bool) → Event
  sees_loaded : (p c : ℕ) → Event
  exits : (p : ℕ) (status : ℤ) → Event
  releases : (p : ℕ) → Event
  dies : (c : ℕ) → Event
  sees_exit : (p c : ℕ) → Event
  reaps : (p c : ℕ) → Event

abbrev pub step : Family → Event → Option Family
step f (spawns p c) = spawn f p c
step f (starts c success created) = start_process f c success created
step f (sees_loaded p c) = execute_loaded f p c >>= λ r. some r.1
step f (exits p status) = process_exit f p status
step f (releases p) = release_next f p
step f (dies c) = die f c
step f (sees_exit p c) = wait_exit f p c
step f (reaps p c) = wait_reap f p c >>= λ r. some r.1

-- The process has a page directory, and has waited for each of its children.
abbrev pub all_waited : Option Proc → Bool
all_waited none = false
all_waited (some t) = t.has_pagedir && is_nil t.children

-- A process that exits has waited for its children, so that `process_exit` releases none.
abbrev pub is_orderly : Family → Event → Bool
is_orderly f (exits p status) = all_waited (f p)
is_orderly f (releases p) = false
is_orderly f e = true
