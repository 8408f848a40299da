-- ===== src/Threads/Tests.antt =====
-- A mutex in the hands of two threads that have registered.
use reaction.Prelude.{◌≡◌, refl, true, false, none, some, List, [], ◌∷◌, ◌++◌, arith, mem, erase}
use reaction.Graph.State.{update}
use reaction.Threads.{
  next_version, done, blocked, undefined_behaviour, conditional_lock, conditional_unlock,
}
use reaction.Threads.Steps.{
  Action, calls, moves, register_call, ask_call, begin, finish, reply, access, is_idle, perform,
  schedule,
}
use reaction.Threads.Steps.Answers.{asks_now, second_version-quiet}
use reaction.Threads.Locking.{after_query, asked, IsSafe, IsAnswered, lock_unlock_lem}
use reaction.Threads.Guards.{lock_guard, lock_guard_lem, shared_lock_guard}
use reaction.Threads.Shared.{
  SharedMutex, passed, waiting, conditional_lock_shared, conditional_lock_alone,
  conditional_unlock_shared, conditional_try_lock, conditional_try_lock_shared,
  conditional_unlock_alone,
}
use reaction.Threads.Shared.Readers.{readers_lem, shared_by}

-- Thread 0 registers and asks, up to the last access of the query.
abbrev alone : List Action
alone = calls 0 register_call ∷ moves 0 ∷ moves 0 ∷ calls 0 ask_call ∷ moves 0 ∷ []

-- Then thread 1 registers, and both ask.
abbrev joins : List Action
joins =
    moves 0
    ∷ calls 1 register_call
    ∷ moves 1
    ∷ moves 1
    ∷ moves 1
    ∷ moves 1
    ∷ calls 0 ask_call
    ∷ moves 0
    ∷ calls 1 ask_call
    ∷ moves 1
    ∷ []

abbrev together : List Action
together = alone ++ joins

-- Everything that a schedule computes with.
steps : Unit {0}
unfolding schedule perform begin access finish reply next_version update is_idle
steps = tt

together-IsSafe : IsSafe false together
unfolding steps
together-IsSafe = record {
  one = 0;
  two = 1;
  apart = λ e. omega (arith, e);
  one_registered = refl;
  two_registered = refl;
  quiet = second_version-quiet together refl;
}

together-0 : IsAnswered false together 0
unfolding steps asks_now
together-0 = record { asks = refl; returns = refl }

together-1 : IsAnswered false together 1
unfolding steps asks_now
together-1 = record { asks = refl; returns = refl }

-- Alone, thread 0 is told that safety is off.
alone_run : asked false alone 0 ≡ some false
unfolding steps
alone_run = refl

lock_unlock_lem_example :
    (after_query (asked false together 0) (λ b. conditional_lock b 0 none) ≡ some (done (some 0)))
    × (after_query (asked false together 1) (λ b. conditional_lock b 1 (some 0)) ≡ some blocked)
    × (after_query (asked false together 0) (λ b. conditional_unlock b 0 (some 0))
        ≡ some (done none))
lock_unlock_lem_example =
    lock_unlock_lem false together [] [] 0 1 (λ e. omega (arith, e)) together-IsSafe together-0
      together-1 together-0

-- Thread 1 registers inside the block.
lock_guard_lem_example :
    after_query
      (asked false alone 0)
      (λ a. after_query (asked false together 0) (λ b. lock_guard a b 0 none))
    ≡ some (some undefined_behaviour)
lock_guard_lem_example =
    lock_guard_lem false alone joins 0 false alone_run together-IsSafe together-0

readers_lem_example :
    (after_query (asked false together 0) (λ b. conditional_lock_shared b 0 (shared_by (9 ∷ [])))
      ≡ some (passed (shared_by (0 ∷ 9 ∷ []))))
    × (after_query
          (asked false together 1)
          (λ b. conditional_lock_alone b 1 (shared_by (0 ∷ 9 ∷ [])))
        ≡ some waiting)
    × (after_query (asked false together 1) (λ b. conditional_try_lock b 1 (shared_by (0 ∷ 9 ∷ [])))
        ≡ some (some (false, shared_by (0 ∷ 9 ∷ []))))
    × (after_query
          (asked false together 0)
          (λ b. conditional_unlock_shared b 0 (shared_by (0 ∷ [])))
        ≡ some (passed (shared_by [])))
    × (after_query (asked false together 1) (λ b. conditional_lock_alone b 1 (shared_by []))
        ≡ some (passed (record { owner = some 1; readers = [] })))
readers_lem_example =
    readers_lem false together [] [] 0 1 (9 ∷ []) together-IsSafe together-0 together-1 together-0
      together-1 (unfold mem in refl) (unfold mem in refl)

-- A writer that holds the mutex keeps a reader's attempt out, and gives the mutex back.
writer_run :
    let held : SharedMutex = record { owner = some 5; readers = [] } in
    (conditional_try_lock_shared true 7 held ≡ some (false, held))
    × (conditional_unlock_alone true 5 held ≡ passed (shared_by []))
unfolding conditional_try_lock_shared conditional_unlock_alone
writer_run = (refl, refl)

-- A reader's guard that stays in one mode gives its share back.
guards_run : shared_lock_guard true true 7 (shared_by []) ≡ passed (shared_by [])
unfolding shared_lock_guard mem erase
guards_run = refl
