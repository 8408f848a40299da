-- ===== src/Threads/Shared/Readers.antt =====
-- Readers share a conditional mutex and keep a writer out
-- (include/reaction/concurrency/thread_manager.h).
use reaction.Prelude.{
  ℕ, ◌≡◌, refl, ap, ◌∙◌, Bool, true, false, ◌||◌, none, some, List, [], ◌∷◌, ◌++◌, nat_beq,
  nat_beq_iff, mem, erase, arith, if_true, if_false,
}
use reaction.Threads.Steps.{Action}
use reaction.Threads.Locking.{after_query, asked, IsSafe, IsAnswered, IsSafe-later, asks_on}
use reaction.Threads.Shared.{
  SharedMutex, SharedOutcome, passed, waiting, owned_lock, shared_lock, shared_unlock,
  conditional_lock_alone, conditional_lock_shared, conditional_unlock_shared, conditional_try_lock,
  tried,
}

-- The mutex is shared by these threads, and by no others.
abbrev pub shared_by : List ℕ → SharedMutex
shared_by ts = record { owner = none; readers = ts }

only_reader : (t : ℕ) → shared_unlock t (shared_by (t ∷ [])) ≡ passed (shared_by [])
unfolding shared_unlock mem erase
only_reader t =
    if_true listed _ _ ∙ ap (λ r. passed (shared_by r)) (if_true ((nat_beq_iff t t).1 refl) _ _)
  where
    listed : (nat_beq t t || false) ≡ true
    listed = ground (arith, nat_beq_iff t t)

-- However the accesses of the threads are mixed, and from a moment on at which two threads have
-- registered and none has turned safety on without having changed the version yet: a thread that is
-- not among those that share the mutex gets to share it; after any accesses, a writer that is not
-- among them waits, and its attempt without waiting fails, while they share it; and after any more,
-- the last of them releases it, and the writer gets it. The queries of the operations return.
pub readers_lem :
    (mode : Bool) (l between after : List Action) (t w : ℕ) (ts : List ℕ)
    → IsSafe mode l
    → IsAnswered mode l t
    → IsAnswered mode (l ++ between) w
    → IsAnswered mode ((l ++ between) ++ after) t
    → IsAnswered mode ((l ++ between) ++ after) w
    → mem t ts ≡ false
    → mem w (t ∷ ts) ≡ false
    → (after_query (asked mode l t) (λ b. conditional_lock_shared b t (shared_by ts))
        ≡ some (passed (shared_by (t ∷ ts))))
      × (after_query
            (asked mode (l ++ between) w)
            (λ b. conditional_lock_alone b w (shared_by (t ∷ ts)))
          ≡ some waiting)
      × (after_query
            (asked mode (l ++ between) w)
            (λ b. conditional_try_lock b w (shared_by (t ∷ ts)))
          ≡ some (some (false, shared_by (t ∷ ts))))
      × (after_query
            (asked mode ((l ++ between) ++ after) t)
            (λ b. conditional_unlock_shared b t (shared_by (t ∷ [])))
          ≡ some (passed (shared_by [])))
      × (after_query
            (asked mode ((l ++ between) ++ after) w)
            (λ b. conditional_lock_alone b w (shared_by []))
          ≡ some (passed (record { owner = some w; readers = [] })))
unfolding conditional_lock_shared conditional_lock_alone conditional_try_lock
    conditional_unlock_shared owned_lock shared_lock shared_unlock tried
readers_lem mode l between after t w ts safe shares waits releases enters new apart =
    let later = IsSafe-later mode l between safe in
    let last = IsSafe-later mode (l ++ between) after later in
    (
      asks_on mode l t (λ b. conditional_lock_shared b t (shared_by ts)) safe shares
          ∙ ap (λ (o : SharedOutcome). some o) (if_false new _ _),
      asks_on mode (l ++ between) w (λ b. conditional_lock_alone b w (shared_by (t ∷ ts))) later
            waits
          ∙ ap (λ (o : SharedOutcome). some o) (if_false apart _ _),
      asks_on mode (l ++ between) w (λ b. conditional_try_lock b w (shared_by (t ∷ ts))) later waits
          ∙ ap (λ (o : SharedOutcome). some (tried (shared_by (t ∷ ts)) o)) (if_false apart _ _),
      asks_on mode ((l ++ between) ++ after) t
            (λ b. conditional_unlock_shared b t (shared_by (t ∷ []))) last releases
          ∙ ap (λ (o : SharedOutcome). some o) (only_reader t),
      asks_on mode ((l ++ between) ++ after) w (λ b. conditional_lock_alone b w (shared_by [])) last
          enters,
    )
