-- ===== src/Threads.antt =====
-- The thread manager and the mutex that locks only when thread safety is on
-- (include/reaction/concurrency/thread_manager.h). Steps has the manager, one access of one thread
-- at a time; an operation of the mutex takes what the query answered that it begins with.
pub mod Steps
pub mod Locking
pub mod Shared
pub mod Guards
pub mod Tests
use reaction.Prelude.{ℕ, ◌+◌, ◌%◌, ◌^◌, Bool, Option, none, some, if◌then◌else◌, nat_beq}

-- `fetch_add(1)` on a `uint32_t`
unfoldable pub next_version : ℕ → ℕ
next_version v = (v + 1) % 2 ^ 32

-- The mutex that is wrapped: the thread that holds it.
pub data Outcome : Type 0 where
  done : Option ℕ → Outcome
  blocked undefined_behaviour : Outcome

unfoldable pub mutex_lock : Option ℕ → ℕ → Outcome
mutex_lock none t = done (some t)
mutex_lock (some u) t = if nat_beq u t then undefined_behaviour else blocked

-- Unlocking a mutex that the thread does not hold has no defined behaviour.
unfoldable pub mutex_unlock : Option ℕ → ℕ → Outcome
mutex_unlock none t = undefined_behaviour
mutex_unlock (some u) t = if nat_beq u t then done none else undefined_behaviour

-- `ConditionalMutexWrapper<std::mutex>`
unfoldable pub conditional_lock : Bool → ℕ → Option ℕ → Outcome
unfolding mutex_lock
conditional_lock enabled t mutex = if enabled then mutex_lock mutex t else done mutex

unfoldable pub conditional_unlock : Bool → ℕ → Option ℕ → Outcome
unfolding mutex_unlock
conditional_unlock enabled t mutex = if enabled then mutex_unlock mutex t else done mutex
