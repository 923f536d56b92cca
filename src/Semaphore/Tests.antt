-- ===== src/Semaphore/Tests.antt =====
-- The order that the program is meant for, and the race.
use clpsz_demos.Base.{◌≡◌, refl, some, List, [], ◌∷◌, arith}
use clpsz_demos.Semaphore.{
  running, undefined, start, main_step, thread_step, returned, ended, new_thread, main_thread,
}
use clpsz_demos.Semaphore.Schedules.{
  main, thread, turn, run, Round, main_first, thread_first, rounds, Ended, Ordered, run-Ended,
  run-Ordered,
}

abbrev eight : List Round
eight =
    main_first ∷ thread_first ∷ main_first ∷ main_first ∷ main_first ∷ thread_first ∷ main_first
    ∷ main_first ∷ []

run-Ended_example : Ended (rounds eight (run (main ∷ main ∷ thread ∷ []) start))
run-Ended_example = run-Ended (main ∷ main ∷ thread ∷ []) eight (omega arith)

run-Ordered_example : Ordered (run (main ∷ thread ∷ main ∷ []) start)
run-Ordered_example = run-Ordered (main ∷ thread ∷ main ∷ [])

in_time :
    rounds eight (run (main ∷ main ∷ thread ∷ []) start)
    ≡ running returned ended (some 1) (new_thread ∷ main_thread ∷ [])
unfolding run turn main_step thread_step start
in_time = refl

race : run (main ∷ thread ∷ thread ∷ []) start ≡ undefined
unfolding run turn main_step thread_step start
race = refl
