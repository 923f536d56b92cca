-- ===== src/Semaphore.antt =====
-- linux/posix_semaphore/main.c: the two threads as steps of a scheduler.
pub mod Schedules
mod Tests
use clpsz_demos.Base.{ℕ, zero, suc, Option, none, some, List, [], ◌∷◌, ◌++◌}

-- The call that each thread makes next.
pub data MainAt : Type 0 where
  create init wait print post join returned : MainAt

pub data ThreadAt : Type 0 where
  not_created thread_print thread_post ended : ThreadAt

pub data Line : Type 0 where
  new_thread main_thread : Line

-- `sem` is none before sem_init.
pub data World : Type 0 where
  running : (main : MainAt) (thread : ThreadAt) (sem : Option ℕ) (printed : List Line) → World
  -- sem_post of a semaphore that is not initialised.
  undefined : World

-- The next call of main, or none where it blocks or has returned.
unfoldable pub main_step : World → Option World
main_step (running create t s out) = some (running init thread_print s out)
main_step (running init t s out) = some (running wait t (some 0) out)
main_step (running wait t none out) = some undefined
main_step (running wait t (some zero) out) = none
main_step (running wait t (some (suc n)) out) = some (running print t (some n) out)
main_step (running print t s out) = some (running post t s (out ++ main_thread ∷ []))
main_step (running post t none out) = some undefined
main_step (running post t (some n) out) = some (running join t (some (suc n)) out)
main_step (running join ended s out) = some (running returned ended s out)
main_step (running join t s out) = none
main_step (running returned t s out) = none
main_step undefined = none

unfoldable pub thread_step : World → Option World
thread_step (running m not_created s out) = none
thread_step (running m thread_print s out) = some (running m thread_post s (out ++ new_thread ∷ []))
thread_step (running m thread_post none out) = some undefined
thread_step (running m thread_post (some n) out) = some (running m ended (some (suc n)) out)
thread_step (running m ended s out) = none
thread_step undefined = none

unfoldable pub start : World
start = running create not_created none []
