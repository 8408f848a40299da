-- ===== src/Threads/Shared.antt =====
-- `ConditionalMutexWrapper<std::shared_mutex>` (include/reaction/concurrency/thread_manager.h):
-- each operation takes what the query answered that it begins with.
pub mod Readers
use reaction.Prelude.{
  ℕ, Bool, true, false, Option, none, some, List, [], ◌∷◌, if◌then◌else◌, nat_beq, mem, erase,
}

-- `std::shared_mutex`: the thread that holds it alone, and those that share it.
pub record SharedMutex : Type 0 where
  pub owner : Option ℕ
  pub readers : List ℕ

pub data SharedOutcome : Type 0 where
  passed : SharedMutex → SharedOutcome
  waiting undefined : SharedOutcome

-- A thread that holds the mutex in some way may not ask for it again.
unfoldable pub owned_lock : ℕ → Option ℕ → List ℕ → SharedOutcome
owned_lock t (some u) rs = if nat_beq u t then undefined else waiting
owned_lock t none [] = passed (record { owner = some t; readers = [] })
owned_lock t none (r ∷ rs) = if mem t (r ∷ rs) then undefined else waiting

unfoldable pub owned_unlock : ℕ → SharedMutex → Option ℕ → SharedOutcome
owned_unlock t s none = undefined
owned_unlock t s (some u) = if nat_beq u t then passed (record s { owner = none }) else undefined

unfoldable pub shared_lock : ℕ → SharedMutex → Option ℕ → SharedOutcome
shared_lock t s (some u) = if nat_beq u t then undefined else waiting
shared_lock t s none =
    if mem t s.readers then undefined else passed (record s { readers = t ∷ s.readers })

unfoldable pub shared_unlock : ℕ → SharedMutex → SharedOutcome
shared_unlock t s =
    if mem t s.readers then passed (record s { readers = erase t s.readers }) else undefined

-- What a `try` answers: it does not wait.
unfoldable pub tried : SharedMutex → SharedOutcome → Option (Bool × SharedMutex)
tried s (passed s') = some (true, s')
tried s waiting = some (false, s)
tried s undefined = none

unfoldable pub conditional_lock_alone : Bool → ℕ → SharedMutex → SharedOutcome
unfolding owned_lock
conditional_lock_alone enabled t s = if enabled then owned_lock t s.owner s.readers else passed s

unfoldable pub conditional_unlock_alone : Bool → ℕ → SharedMutex → SharedOutcome
unfolding owned_unlock
conditional_unlock_alone enabled t s = if enabled then owned_unlock t s s.owner else passed s

unfoldable pub conditional_try_lock : Bool → ℕ → SharedMutex → Option (Bool × SharedMutex)
unfolding owned_lock tried
conditional_try_lock enabled t s =
    if enabled then tried s (owned_lock t s.owner s.readers) else some (true, s)

unfoldable pub conditional_lock_shared : Bool → ℕ → SharedMutex → SharedOutcome
unfolding shared_lock
conditional_lock_shared enabled t s = if enabled then shared_lock t s s.owner else passed s

unfoldable pub conditional_unlock_shared : Bool → ℕ → SharedMutex → SharedOutcome
unfolding shared_unlock
conditional_unlock_shared enabled t s = if enabled then shared_unlock t s else passed s

unfoldable pub conditional_try_lock_shared : Bool → ℕ → SharedMutex → Option (Bool × SharedMutex)
unfolding shared_lock tried
conditional_try_lock_shared enabled t s =
    if enabled then tried s (shared_lock t s s.owner) else some (true, s)
