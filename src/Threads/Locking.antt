-- ===== src/Threads/Locking.antt =====
-- Locking through the wrapper (include/reaction/concurrency/thread_manager.h), with the answers
-- that its queries get when the accesses of the threads come in any order.
use reaction.Prelude.{
  ℕ, ◌≡◌, ◌≢◌, refl, ap, ◌∙◌, inl, inr, Bool, true, false, Option, none, some, List, ◌++◌, nat_beq,
  nat_beq_iff, Bool-cases, if_true, if_false,
}
use reaction.Threads.{
  Outcome, done, blocked, mutex_lock, mutex_unlock, conditional_lock, conditional_unlock,
}
use reaction.Threads.Steps.{System, new_system, Action, moves, is_idle, perform, schedule}
use reaction.Threads.Steps.Relies.{bumps}
use reaction.Threads.Steps.Answers.{asks_now, answers_lem, two-enabled_lem}
use reaction.Threads.Steps.Steady.{reached-IsSteady}
use reaction.Threads.Steps.Stays.{IsOn, schedule-IsOn, schedule-IsRegistered, schedule-append}

-- The system after a schedule.
abbrev pub reached : Bool → List Action → System
reached mode l = schedule l (new_system mode)

-- What the query answers that the thread's next access ends.
abbrev pub asked : Bool → List Action → ℕ → Option Bool
asked mode l t = ((perform (moves t) (reached mode l)).worker t).answer

-- What an operation does whose query answered, if it did.
unfoldable pub after_query {ℓ} : {A : Type ℓ} → Option Bool → (Bool → A) → Option A
after_query none k = none
after_query (some b) k = some (k b)

-- Two threads have registered, and none has turned safety on without having changed the version
-- yet.
pub record IsSafe (mode : Bool) (l : List Action) : Type 0 where
  pub one : ℕ
  pub two : ℕ
  pub apart : one ≢ two
  pub one_registered : ((reached mode l).worker one).registered ≡ true
  pub two_registered : ((reached mode l).worker two).registered ≡ true
  pub quiet : (i : ℕ) → bumps ((reached mode l).worker i).place ≡ false

-- The next access of the thread returns from a query.
pub record IsAnswered (mode : Bool) (l : List Action) (t : ℕ) : Type 0 where
  pub asks : asks_now ((reached mode l).worker t).place ≡ true
  pub returns : is_idle ((perform (moves t) (reached mode l)).worker t).place ≡ true

-- It stays so, whatever the threads do.
pub IsSafe-later : (mode : Bool) (l l' : List Action) → IsSafe mode l → IsSafe mode (l ++ l')
IsSafe-later mode l l' s = record {
  one = s.one;
  two = s.two;
  apart = s.apart;
  one_registered =
      later s.one (schedule-IsRegistered l' (reached mode l) s.one is_on s.one_registered);
  two_registered =
      later s.two (schedule-IsRegistered l' (reached mode l) s.two is_on s.two_registered);
  quiet = λ i.
      ap (λ (x : System). bumps (x.worker i).place) (schedule-append l l' (new_system mode))
      ∙ (schedule-IsOn l' (reached mode l) is_on).quiet i;
}
  where
    is_on : IsOn (reached mode l)
    is_on = record {
      enabled =
          two-enabled_lem mode (reached mode l).shared s.one s.two ((reached mode l).worker s.one)
            ((reached mode l).worker s.two) s.apart ((reached-IsSteady mode l).relies s.one)
            ((reached-IsSteady mode l).relies s.two) s.one_registered s.two_registered;
      quiet = s.quiet;
    }

    later :
        (i : ℕ)
        → ((schedule l' (reached mode l)).worker i).registered ≡ true
        → ((reached mode (l ++ l')).worker i).registered ≡ true
    later i h =
        ap (λ (x : System). (x.worker i).registered) (schedule-append l l' (new_system mode)) ∙ h

pub asks_on {ℓ} :
    {A : Type ℓ} (mode : Bool) (l : List Action) (t : ℕ) (k : Bool → A)
    → IsSafe mode l
    → IsAnswered mode l t
    → after_query (asked mode l t) k ≡ some (k true)
unfolding after_query
asks_on mode l t k s a =
    ap (λ o. after_query o k)
      (answers_lem mode l s.one s.two t s.apart s.one_registered s.two_registered s.quiet a.asks
        a.returns)

-- However the accesses of the threads are mixed, and from a moment on at which two threads have
-- registered and none has turned safety on without having changed the version yet: a thread that
-- locks a free mutex holds it; after any accesses, another thread that locks it is blocked; and
-- after any more, the unlocking of the one frees it. The queries of the three operations return.
pub lock_unlock_lem :
    (mode : Bool) (l between after : List Action) (t u : ℕ)
    → t ≢ u
    → IsSafe mode l
    → IsAnswered mode l t
    → IsAnswered mode (l ++ between) u
    → IsAnswered mode ((l ++ between) ++ after) t
    → (after_query (asked mode l t) (λ b. conditional_lock b t none) ≡ some (done (some t)))
      × (after_query (asked mode (l ++ between) u) (λ b. conditional_lock b u (some t))
          ≡ some blocked)
      × (after_query (asked mode ((l ++ between) ++ after) t) (λ b. conditional_unlock b t (some t))
          ≡ some (done none))
unfolding conditional_lock conditional_unlock mutex_lock mutex_unlock
lock_unlock_lem mode l between after t u t≢u safe first second third =
    let later = IsSafe-later mode l between safe in
    (
      asks_on mode l t (λ b. conditional_lock b t none) safe first,
      asks_on mode (l ++ between) u (λ b. conditional_lock b u (some t)) later second
          ∙ ap (λ (o : Outcome). some o) (if_false other _ _),
      asks_on mode ((l ++ between) ++ after) t (λ b. conditional_unlock b t (some t))
            (IsSafe-later mode (l ++ between) after later) third
          ∙ ap (λ (o : Outcome). some o) (if_true ((nat_beq_iff t t).1 refl) _ _),
    )
  where
    other : nat_beq t u ≡ false
    other = elim (Bool-cases (nat_beq t u)) [
      | inl same ↦ absurd (t≢u ((nat_beq_iff t u).0 same))
      | inr different ↦ different
    ]
