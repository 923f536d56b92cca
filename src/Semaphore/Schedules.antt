-- ===== src/Semaphore/Schedules.antt =====
-- The schedules of the two threads of linux/posix_semaphore/main.c.
use clpsz_demos.Base.{
  ℕ, ◌-◌, ◌≤◌, ◌≡◌, refl, Option, none, some, List, [], ◌∷◌, ◌++◌, length, arith,
}
use clpsz_demos.Semaphore.{
  MainAt, create, init, wait, print, post, join, returned, ThreadAt, not_created, thread_print,
  thread_post, ended, Line, new_thread, main_thread, World, running, undefined, main_step,
  thread_step, start,
}

pub data Turn : Type 0 where
  main thread : Turn

-- A thread that cannot go on leaves the world as it is.
unfoldable pub turn : Turn → World → World
turn main w = elim (main_step w) [ none ↦ w | some v ↦ v ]
turn thread w = elim (thread_step w) [ none ↦ w | some v ↦ v ]

unfoldable pub run : List Turn → World → World
run [] w = w
run (t ∷ turns) w = run turns (turn t w)

-- The worlds that schedules lead to.
pub data Possible : World → Type 0 where
  at_start : Possible (running create not_created none [])
  created : Possible (running init thread_print none [])
  too_early : Possible (running init thread_post none (new_thread ∷ []))
  waits : Possible (running wait thread_print (some 0) [])
  waits_for_post : Possible (running wait thread_post (some 0) (new_thread ∷ []))
  posted : Possible (running wait ended (some 1) (new_thread ∷ []))
  woken : Possible (running print ended (some 0) (new_thread ∷ []))
  both_printed : Possible (running post ended (some 0) (new_thread ∷ main_thread ∷ []))
  joins : Possible (running join ended (some 1) (new_thread ∷ main_thread ∷ []))
  finished : Possible (running returned ended (some 1) (new_thread ∷ main_thread ∷ []))
  raced : Possible undefined

turn-Possible : (t : Turn) (w : World) → Possible w → Possible (turn t w)
unfolding turn main_step thread_step
turn-Possible main _ at_start = created
turn-Possible main _ created = waits
turn-Possible main _ too_early = waits_for_post
turn-Possible main _ waits = waits
turn-Possible main _ waits_for_post = waits_for_post
turn-Possible main _ posted = woken
turn-Possible main _ woken = both_printed
turn-Possible main _ both_printed = joins
turn-Possible main _ joins = finished
turn-Possible main _ finished = finished
turn-Possible main _ raced = raced
turn-Possible thread _ at_start = at_start
turn-Possible thread _ created = too_early
turn-Possible thread _ too_early = raced
turn-Possible thread _ waits = waits_for_post
turn-Possible thread _ waits_for_post = posted
turn-Possible thread _ posted = posted
turn-Possible thread _ woken = woken
turn-Possible thread _ both_printed = both_printed
turn-Possible thread _ joins = joins
turn-Possible thread _ finished = finished
turn-Possible thread _ raced = raced

pub run-Possible : (turns : List Turn) (w : World) → Possible w → Possible (run turns w)
unfolding run
run-Possible [] w p = p
run-Possible (t ∷ turns) w p = run-Possible turns (turn t w) (turn-Possible t w p)

abbrev value : Option ℕ → ℕ
value none = 0
value (some n) = n

-- What is printed begins the two lines in their order, and the semaphore is at most 1.
pub data Ordered : World → Type 0 where
  ordered :
      {m : MainAt} {t : ThreadAt} {s : Option ℕ} {out : List Line} (rest : List Line)
      → out ++ rest ≡ new_thread ∷ main_thread ∷ []
      → value s ≤ 1
      → Ordered (running m t s out)
  not_defined : Ordered undefined

Possible-Ordered : (w : World) → Possible w → Ordered w
Possible-Ordered _ at_start = ordered (new_thread ∷ main_thread ∷ []) refl (omega arith)
Possible-Ordered _ created = ordered (new_thread ∷ main_thread ∷ []) refl (omega arith)
Possible-Ordered _ too_early = ordered (main_thread ∷ []) refl (omega arith)
Possible-Ordered _ waits = ordered (new_thread ∷ main_thread ∷ []) refl (omega arith)
Possible-Ordered _ waits_for_post = ordered (main_thread ∷ []) refl (omega arith)
Possible-Ordered _ posted = ordered (main_thread ∷ []) refl (omega arith)
Possible-Ordered _ woken = ordered (main_thread ∷ []) refl (omega arith)
Possible-Ordered _ both_printed = ordered [] refl (omega arith)
Possible-Ordered _ joins = ordered [] refl (omega arith)
Possible-Ordered _ finished = ordered [] refl (omega arith)
Possible-Ordered _ raced = not_defined

-- After any turns of the threads, unless the thread has called sem_post before sem_init, main has
-- not printed before the thread, no line is printed twice, and the semaphore is at most 1.
pub run-Ordered : (turns : List Turn) → Ordered (run turns start)
unfolding start
run-Ordered turns = Possible-Ordered (run turns start) (run-Possible turns start at_start)

-- Main has returned with both lines printed, the thread's first, or there was a post before
-- sem_init.
pub data Ended : World → Type 0 where
  in_order : Ended (running returned ended (some 1) (new_thread ∷ main_thread ∷ []))
  undefined_post : Ended undefined

-- The calls that are left.
unfoldable pub left : World → ℕ
left (running create t s out) = 8
left (running init thread_post s out) = 6
left (running init t s out) = 7
left (running wait thread_print s out) = 6
left (running wait thread_post s out) = 5
left (running wait t s out) = 4
left (running print t s out) = 3
left (running post t s out) = 2
left (running join t s out) = 1
left (running returned t s out) = 0
left undefined = 0

-- A round in which each thread has a turn, in either order.
pub data Round : Type 0 where
  main_first thread_first : Round

abbrev pub turns_of : Round → List Turn
turns_of main_first = main ∷ thread ∷ []
turns_of thread_first = thread ∷ main ∷ []

abbrev pub rounds : List Round → World → World
rounds [] w = w
rounds (r ∷ rs) w = rounds rs (run (turns_of r) w)

round-left : (r : Round) (w : World) → Possible w → left (run (turns_of r) w) ≤ left w - 1
unfolding run turn main_step thread_step left
round-left main_first _ at_start = omega arith
round-left main_first _ created = omega arith
round-left main_first _ too_early = omega arith
round-left main_first _ waits = omega arith
round-left main_first _ waits_for_post = omega arith
round-left main_first _ posted = omega arith
round-left main_first _ woken = omega arith
round-left main_first _ both_printed = omega arith
round-left main_first _ joins = omega arith
round-left main_first _ finished = omega arith
round-left main_first _ raced = omega arith
round-left thread_first _ at_start = omega arith
round-left thread_first _ created = omega arith
round-left thread_first _ too_early = omega arith
round-left thread_first _ waits = omega arith
round-left thread_first _ waits_for_post = omega arith
round-left thread_first _ posted = omega arith
round-left thread_first _ woken = omega arith
round-left thread_first _ both_printed = omega arith
round-left thread_first _ joins = omega arith
round-left thread_first _ finished = omega arith
round-left thread_first _ raced = omega arith

nothing_left : (w : World) → Possible w → left w ≤ 0 → Ended w
unfolding left
nothing_left _ at_start h = absurd (omega arith)
nothing_left _ created h = absurd (omega arith)
nothing_left _ too_early h = absurd (omega arith)
nothing_left _ waits h = absurd (omega arith)
nothing_left _ waits_for_post h = absurd (omega arith)
nothing_left _ posted h = absurd (omega arith)
nothing_left _ woken h = absurd (omega arith)
nothing_left _ both_printed h = absurd (omega arith)
nothing_left _ joins h = absurd (omega arith)
nothing_left _ finished h = in_order
nothing_left _ raced h = undefined_post

left_start : (w : World) → Possible w → left w ≤ 8
unfolding left
left_start _ at_start = omega arith
left_start _ created = omega arith
left_start _ too_early = omega arith
left_start _ waits = omega arith
left_start _ waits_for_post = omega arith
left_start _ posted = omega arith
left_start _ woken = omega arith
left_start _ both_printed = omega arith
left_start _ joins = omega arith
left_start _ finished = omega arith
left_start _ raced = omega arith

rounds-Ended : (rs : List Round) (w : World) → Possible w → left w ≤ length rs → Ended (rounds rs w)
rounds-Ended [] w p enough = nothing_left w p enough
rounds-Ended (r ∷ rs) w p enough =
    rounds-Ended rs (run (turns_of r) w) (run-Possible (turns_of r) w p)
      (omega (arith, round-left r w p))

-- Whatever turns the threads have taken, eight more rounds in which each has a turn, in any order
-- within a round, end the program: main has returned with the lines of the thread and of main
-- printed in this order, or the thread has called sem_post before sem_init.
pub run-Ended :
    (turns : List Turn) (rs : List Round) → 8 ≤ length rs → Ended (rounds rs (run turns start))
unfolding start
run-Ended turns rs enough =
    let p = run-Possible turns start at_start in
    rounds-Ended rs (run turns start) p (omega (arith, left_start (run turns start) p))
