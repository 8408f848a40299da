-- ===== src/Threads/Steps/Answers.antt =====
-- What queries answer, however the steps of the threads are mixed
-- (include/reaction/concurrency/thread_manager.h).
use reaction.Prelude.{
  ℕ, ◌≡◌, ◌≢◌, ◌⊎◌, inl, inr, refl, sym, ap, ◌∙◌, Bool, true, false, some, List, nat_beq,
  nat_beq_iff, Bool-cases, if_true, if_false, arith,
}
use mathlib.Core.Bool.{true≢false}
use reaction.Graph.State.{update_here}
use reaction.Threads.Steps.{
  Shared, Place, idle, checking, claiming, asking, enabling, bumping, loading, Worker, reply,
  access, System, new_system, Action, moves, is_idle, perform, schedule,
}
use reaction.Threads.Steps.Relies.{bumps, Relies}
use reaction.Threads.Steps.Phases.{Phase, off, turning, on, always, bumpers}
use reaction.Threads.Steps.Steady.{reached-IsSteady}

-- In a call of `isThreadSafetyEnabled`.
unfoldable pub asks_now : Place → Bool
asks_now idle = false
asks_now checking = false
asks_now claiming = false
asks_now asking = true
asks_now (enabling r) = false
asks_now (bumping r) = false
asks_now (loading v) = true

pub two-enabled_lem :
    (mode : Bool) (m : Shared) (a b : ℕ) (v w : Worker)
    → a ≢ b
    → Relies mode m a v
    → Relies mode m b w
    → v.registered ≡ true
    → w.registered ≡ true
    → m.enabled ≡ true
two-enabled_lem mode m a b v w apart r q g h = elim (r.known g) [
  | inl e ↦ e
  | inr first ↦ elim (q.known h) [
    | inl e ↦ e
    | inr second ↦ absurd (apart (same (sym first ∙ second)))
  ]
]
  where
    same : {x y : ℕ} → some x ≡ some y → x ≡ y
    same e = cc

module _ (mode : Bool) (t : ℕ) (m : Shared) (w : Worker) (on_now : m.enabled ≡ true)
    (r : Relies mode m t w)
    (current : (mode ≡ true) × (m.safety_version ≡ 1) ⊎ (m.safety_version ≡ 2)) where
  cached_right : nat_beq w.cached_version m.safety_version ≡ true → w.cached_enabled ≡ true
  cached_right same = elim current [
    | inl (q, one) ↦ r.first q ((nat_beq_iff _ _).0 same ∙ one)
    | inr two ↦ r.second ((nat_beq_iff _ _).0 same ∙ two)
  ]

  answered_right :
      (p : Place)
      → asks_now p ≡ true
      → is_idle (access t p m w).1.place ≡ true
      → (access t p m w).1.answer ≡ some true
  unfolding asks_now access is_idle reply
  answered_right idle h i = absurd (true≢false (sym h))
  answered_right checking h i = absurd (true≢false (sym h))
  answered_right claiming h i = absurd (true≢false (sym h))
  answered_right (enabling b) h i = absurd (true≢false (sym h))
  answered_right (bumping b) h i = absurd (true≢false (sym h))
  answered_right (loading v) h i = ap (λ (b : Bool). some b) on_now
  answered_right asking h i = elim (Bool-cases (nat_beq w.cached_version m.safety_version)) [
    | inl same ↦
        ap (λ (x : Shared × Worker). x.1.answer) (if_true same _ _)
        ∙ ap (λ (b : Bool). some b) (cached_right same)
    | inr other ↦
        absurd (
          true≢false (sym i ∙ ap (λ (x : Shared × Worker). is_idle x.1.place) (if_false other _ _)))
  ]

-- However the steps of any threads are mixed: once two threads have registered, and no thread has
-- turned safety on without having changed the version yet, each access with which a query returns
-- answers that safety is on.
pub answers_lem :
    (mode : Bool) (l : List Action) (a b t : ℕ)
    → a ≢ b
    → ((schedule l (new_system mode)).worker a).registered ≡ true
    → ((schedule l (new_system mode)).worker b).registered ≡ true
    → ((i : ℕ) → bumps ((schedule l (new_system mode)).worker i).place ≡ false)
    → asks_now ((schedule l (new_system mode)).worker t).place ≡ true
    → is_idle ((perform (moves t) (schedule l (new_system mode))).worker t).place ≡ true
    → ((perform (moves t) (schedule l (new_system mode))).worker t).answer ≡ some true
unfolding perform
answers_lem mode l a b t apart ra rb quiet asks returns =
    let s = schedule l (new_system mode) in
    let k = reached-IsSteady mode l in
    let x = access t (s.worker t).place s.shared (s.worker t) in
    let is_on =
      two-enabled_lem mode s.shared a b (s.worker a) (s.worker b) apart (k.relies a) (k.relies b) ra
        rb in
    ap (λ (w : Worker). w.answer) (update_here s.worker t x.1)
    ∙ answered_right mode t s.shared (s.worker t) is_on (k.relies t) (version s is_on k.phase quiet)
        (s.worker t).place asks
        (sym (ap (λ (w : Worker). is_idle w.place) (update_here s.worker t x.1)) ∙ returns)
  where
    version :
        (s : System)
        → s.shared.enabled ≡ true
        → Phase mode s.shared (bumpers s)
        → ((i : ℕ) → bumpers s i ≡ false)
        → (mode ≡ true) × (s.shared.safety_version ≡ 1) ⊎ (s.shared.safety_version ≡ 2)
    version s e (off q h v n) quiet = absurd (true≢false (sym e ∙ h))
    version s e (turning i q h v n) quiet =
        absurd (true≢false (sym ((nat_beq_iff i i).1 refl) ∙ sym (n i) ∙ quiet i))
    version s e (on q h v n) quiet = inr v
    version s e (always q h v n) quiet = inl (q, v)

-- The version changes once: then no thread is about to change it.
pub second_version-quiet :
    (l : List Action)
    → (schedule l (new_system false)).shared.safety_version ≡ 2
    → (i : ℕ) → bumps ((schedule l (new_system false)).worker i).place ≡ false
second_version-quiet l two =
    none_left (schedule l (new_system false)) (reached-IsSteady false l).phase two
  where
    none_left :
        (s : System)
        → Phase false s.shared (bumpers s)
        → s.shared.safety_version ≡ 2
        → (i : ℕ) → bumpers s i ≡ false
    none_left s (off q h v n) two = n
    none_left s (turning i q h v n) two = absurd (omega (arith, two, v))
    none_left s (on q h v n) two = n
    none_left s (always q h v n) two = n
