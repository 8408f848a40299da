-- ===== src/Threads/Guards.antt =====
-- `ConditionalLockGuard` and `ConditionalSharedLockGuard` around a block
-- (include/reaction/concurrency/thread_manager.h). The constructor and the destructor each begin
-- with a query.
use reaction.Prelude.{
  ℕ, ◌≡◌, refl, ap, ◌∙◌, Bool, true, false, Option, none, some, List, ◌++◌, if◌then◌else◌, if_true,
  nat_beq_iff,
}
use reaction.Threads.{
  Outcome, done, blocked, undefined_behaviour, mutex_lock, mutex_unlock, conditional_lock,
  conditional_unlock,
}
use reaction.Threads.Steps.{Action}
use reaction.Threads.Locking.{after_query, asked, IsSafe, IsAnswered, asks_on}
use reaction.Threads.Shared.{
  SharedMutex, SharedOutcome, passed, waiting, undefined, conditional_lock_shared,
  conditional_unlock_shared,
}

-- The destructor, once the constructor has the mutex.
unfoldable pub leave : Bool → ℕ → Outcome → Outcome
unfolding conditional_unlock
leave enabled t (done mutex) = conditional_unlock enabled t mutex
leave enabled t blocked = blocked
leave enabled t undefined_behaviour = undefined_behaviour

-- The whole life of a guard.
unfoldable pub lock_guard : Bool → Bool → ℕ → Option ℕ → Outcome
unfolding leave conditional_lock
lock_guard begins ends t mutex = leave ends t (conditional_lock begins t mutex)

unfoldable pub leave_shared : Bool → ℕ → SharedOutcome → SharedOutcome
unfolding conditional_unlock_shared
leave_shared enabled t (passed mutex) = conditional_unlock_shared enabled t mutex
leave_shared enabled t waiting = waiting
leave_shared enabled t undefined = undefined

unfoldable pub shared_lock_guard : Bool → Bool → ℕ → SharedMutex → SharedOutcome
unfolding leave_shared conditional_lock_shared
shared_lock_guard begins ends t mutex = leave_shared ends t (conditional_lock_shared begins t mutex)

-- However the accesses of the threads are mixed: a guard on a free mutex, whose first query returns
-- at some moment, and whose last query returns at a later one, at which two threads have registered
-- and none has turned safety on without having changed the version yet, frees the mutex again if
-- the first query answered that safety is on; if not, then the destructor unlocks a mutex that is
-- not held.
pub lock_guard_lem :
    (mode : Bool) (begins inside : List Action) (t : ℕ) (first : Bool)
    → asked mode begins t ≡ some first
    → IsSafe mode (begins ++ inside)
    → IsAnswered mode (begins ++ inside) t
    → after_query
        (asked mode begins t)
        (λ a. after_query (asked mode (begins ++ inside) t) (λ b. lock_guard a b t none))
      ≡ some (some (if first then done none else undefined_behaviour))
unfolding after_query lock_guard leave conditional_lock conditional_unlock mutex_lock mutex_unlock
lock_guard_lem mode begins inside t first answered safe last =
    ap
      (λ o.
        after_query o
          (λ a. after_query (asked mode (begins ++ inside) t) (λ b. lock_guard a b t none)))
      answered
    ∙ ap (λ (o : Option Outcome). some o)
        (asks_on mode (begins ++ inside) t (λ b. lock_guard first b t none) safe last
          ∙ ap (λ (o : Outcome). some o) (either first))
  where
    either : (a : Bool) → lock_guard a true t none ≡ (if a then done none else undefined_behaviour)
    either true = if_true ((nat_beq_iff t t).1 refl) _ _
    either false = refl
