-- ===== src/Family/Tests.antt =====
-- A process and its child, and the theorems on waiting and exiting in src/userprog/process.c at them.
use operating_system.Common.{arith, ◌≡◌, refl, true, false, some, none, [], ◌∷◌}
use operating_system.Common.Int.{ℤ, pos}
use operating_system.Family.{
  running, reaping, exiting, Proc, Family, put, mem, new_proc, spawn, start_process, execute_loaded,
  process_exit, release, release_next, die, wait_exit, wait_reap, wait_none, Event, spawns, starts,
  sees_loaded, sees_exit,
}
use operating_system.Family.Invariant.{Valid}
use operating_system.Family.Freed.{exit_reads_freed, exit_leaves_listed}
use operating_system.Family.Run.{Run, begin, next, run-Valid, first, first-Valid}
use operating_system.Family.Status.{RunOf, exit_then_wait}

-- Process 1 has started 2, which was loaded.
abbrev parent_1 : Proc
parent_1 = record new_proc { stage = running; children = 2 ∷ [] }

abbrev child_2 : Proc
child_2 = record new_proc { stage = running; is_loaded = true; has_pagedir = true }

abbrev spawned : Family
spawned = put (put (first 1) 2 (some new_proc)) 1 (some parent_1)

abbrev started : Family
started = put spawned 2 (some (record child_2 { load_sema = 1 }))

abbrev loaded : Family
loaded = put started 2 (some child_2)

-- Process 2 has exited with status 7, and then process 1 waits for it.
abbrev exited_2 : Proc
exited_2 = record child_2 { stage = exiting; exit_status = pos 7; exit_sema = 1 }

abbrev exited : Family
exited = put loaded 2 (some exited_2)

abbrev waiting : Family
waiting =
    put (put exited 2 (some (record exited_2 { exit_sema = 0 }))) 1
      (some (record parent_1 { stage = reaping 2 }))

to_loaded : Run (first 1) loaded
unfolding spawn start_process execute_loaded
to_loaded =
    next (next (next begin (spawns 1 2) refl refl) (starts 2 true true) refl refl) (sees_loaded 1 2)
      refl refl

loaded-Valid : Valid loaded
loaded-Valid = run-Valid (first 1) loaded (first-Valid 1) to_loaded

run-Valid_example : Valid loaded
run-Valid_example = run-Valid (first 1) loaded (first-Valid 1) to_loaded

exits_run : process_exit loaded 2 (pos 7) ≡ some exited
unfolding process_exit release
exits_run = refl

wait_run : RunOf 2 exited waiting
unfolding wait_exit
wait_run = RunOf.next RunOf.begin (sees_exit 1 2) refl refl refl

exit_then_wait_example :
    (h' : Family) × (wait_reap waiting 1 2 ≡ some (pos 7, h'))
    × ((t' : Proc) × (h' 1 ≡ some t') × (mem t'.children 2 ≡ false))
    × (die h' 2 ≡ some (put h' 2 none))
exit_then_wait_example =
    exit_then_wait loaded exited waiting 1 2 (record parent_1 { stage = reaping 2 }) (pos 7)
      loaded-Valid refl exits_run wait_run refl refl

waiting-Valid : Valid waiting
unfolding wait_exit process_exit release
waiting-Valid =
    run-Valid exited waiting
      (run-Valid loaded exited loaded-Valid (next begin (Event.exits 2 (pos 7)) refl refl))
      (next begin (sees_exit 1 2) refl refl)

no_child : wait_none loaded 1 3 ≡ some (ℤ.negsuc 0)
unfolding wait_none
no_child = refl

exit_reads_freed_example :
    (f1 : Family) × (f2 : Family) × (process_exit exited 1 (pos 0) ≡ some f1)
    × (die f1 2 ≡ some f2)
    × (release_next f2 1 ≡ none)
exit_reads_freed_example =
    exit_reads_freed exited 1 2 [] parent_1 exited_2 (pos 0) refl refl refl refl refl

-- Process 2 has no page directory, and `load` has failed.
abbrev unloaded : Family
unloaded = put started 2 (some (record new_proc { stage = running; load_sema = 1 }))

frees_listed_child :
    (f' : Family) × (process_exit unloaded 2 (pos 0) ≡ some f')
    × (f' 1 ≡ some parent_1)
    × (f' 2 ≡ none)
    × (wait_exit f' 1 2 ≡ none)
    × (execute_loaded f' 1 2 ≡ none)
frees_listed_child =
    exit_leaves_listed unloaded 1 2 parent_1 (record new_proc { stage = running; load_sema = 1 })
      (pos 0) refl refl refl (λ q. absurd (omega (arith, q))) refl refl refl refl
