-- ===== src/Threads/Steps/Phases.antt =====
-- The phases in which safety is turned on (include/reaction/concurrency/thread_manager.h).
use reaction.Prelude.{
  ℕ, ◌≡◌, inl, inr, refl, sym, ap, ◌∙◌, Bool, true, false, if◌then◌else◌, nat_beq, nat_beq_iff,
  arith, Bool-cases, if_true, if_false,
}
use mathlib.Core.Path.{subst}
use mathlib.Core.Bool.{true≢false}
use reaction.Graph.State.{update}
use reaction.Threads.{next_version}
use reaction.Threads.Steps.{
  Shared, Place, idle, checking, claiming, asking, enabling, bumping, loading, Worker, Call,
  register_call, enable_call, ask_call, begin, finish, reply, access, System, is_idle,
}
use reaction.Threads.Steps.Relies.{bumps}

-- Whose turn it is to change the version: safety is off; thread `i` has turned it on, and has not
-- changed the version yet; it is on; or it was on from the start.
pub data Phase (mode : Bool) (m : Shared) (bumper : ℕ → Bool) : Type 0 where
  off :
      mode ≡ false
      → m.enabled ≡ false
      → m.safety_version ≡ 1
      → ((i : ℕ) → bumper i ≡ false)
      → Phase mode m bumper
  turning :
      (i : ℕ)
      → mode ≡ false
      → m.enabled ≡ true
      → m.safety_version ≡ 1
      → ((j : ℕ) → bumper j ≡ nat_beq i j)
      → Phase mode m bumper
  on :
      mode ≡ false
      → m.enabled ≡ true
      → m.safety_version ≡ 2
      → ((i : ℕ) → bumper i ≡ false)
      → Phase mode m bumper
  always :
      mode ≡ true
      → m.enabled ≡ true
      → m.safety_version ≡ 1
      → ((i : ℕ) → bumper i ≡ false)
      → Phase mode m bumper

-- Which threads are about to change the version.
abbrev pub bumpers : System → ℕ → Bool
bumpers s i = bumps (s.worker i).place

Phase-same :
    (mode : Bool) (m m' : Shared) (b b' : ℕ → Bool)
    → m'.enabled ≡ m.enabled
    → m'.safety_version ≡ m.safety_version
    → ((i : ℕ) → b' i ≡ b i)
    → Phase mode m b
    → Phase mode m' b'
Phase-same mode m m' b b' e v same (off q h k n) = off q (e ∙ h) (v ∙ k) (λ i. same i ∙ n i)
Phase-same mode m m' b b' e v same (turning i q h k n) =
    turning i q (e ∙ h) (v ∙ k) (λ j. same j ∙ n j)
Phase-same mode m m' b b' e v same (on q h k n) = on q (e ∙ h) (v ∙ k) (λ i. same i ∙ n i)
Phase-same mode m m' b b' e v same (always q h k n) = always q (e ∙ h) (v ∙ k) (λ i. same i ∙ n i)

-- The worker's place before and after, seen by the others.
bumper-update :
    (f : ℕ → Worker) (t : ℕ) (w : Worker) (i : ℕ)
    → bumps w.place ≡ bumps (f t).place
    → bumps (update f t w i).place ≡ bumps (f i).place
unfolding update
bumper-update f t w i e = elim (Bool-cases (nat_beq t i)) [
  | inl same ↦
      ap (λ (v : Worker). bumps v.place) (if_true same _ _)
      ∙ e
      ∙ ap (λ n. bumps (f n).place) ((nat_beq_iff t i).0 same)
  | inr other ↦ ap (λ (v : Worker). bumps v.place) (if_false other _ _)
]

-- The worker of thread `t` is about to change the version, or is not, and no other is.
bumper-only :
    (f : ℕ → Worker) (t : ℕ) (w : Worker) (b : Bool)
    → bumps w.place ≡ b
    → ((i : ℕ) → nat_beq t i ≡ false → bumps (f i).place ≡ false)
    → (i : ℕ) → bumps (update f t w i).place ≡ (if nat_beq t i then b else false)
unfolding update
bumper-only f t w b e others i = elim (Bool-cases (nat_beq t i)) [
  | inl same ↦ ap (λ (v : Worker). bumps v.place) (if_true same _ _) ∙ e ∙ sym (if_true same _ _)
  | inr other ↦
      ap (λ (v : Worker). bumps v.place) (if_false other _ _)
      ∙ others i other
      ∙ sym (if_false other _ _)
]

either_way : (b : Bool) → (if b then true else false) ≡ b
either_way b = ground arith

never : (b : Bool) → (if b then false else false) ≡ false
never b = ground arith

-- The two accesses that change the phase, and the others.
module _ (mode : Bool) (t : ℕ) (s : System) (now : Phase mode s.shared (bumpers s)) where
  abbrev After : Shared × Worker → Type 0
  After x = Phase mode x.0 (λ i. bumps (update s.worker t x.1 i).place)

  pub quiet :
      (x : Shared × Worker)
      → x.0.enabled ≡ s.shared.enabled
      → x.0.safety_version ≡ s.shared.safety_version
      → bumps x.1.place ≡ bumps (s.worker t).place
      → After x
  quiet x e v b =
      Phase-same mode s.shared x.0 (bumpers s) (λ i. bumps (update s.worker t x.1 i).place) e v
        (λ i. bumper-update s.worker t x.1 i b) now

  turned_on :
      (r : Bool)
      → s.shared.enabled ≡ false
      → After (record s.shared { enabled = true }, record (s.worker t) { place = bumping r })
  unfolding bumps
  turned_on r e = elim now [
    | off q h k n ↦ turning t q refl k (λ j.
        bumper-only s.worker t (record (s.worker t) { place = bumping r }) true refl (λ i o. n i) j
        ∙ either_way (nat_beq t j))
    | turning i q h k n ↦ absurd (true≢false (sym h ∙ e))
    | on q h k n ↦ absurd (true≢false (sym h ∙ e))
    | always q h k n ↦ absurd (true≢false (sym h ∙ e))
  ]

  version_changed :
      (r : Bool)
      → bumps (s.worker t).place ≡ true
      → After (
        record s.shared { safety_version = next_version s.shared.safety_version },
        finish r (s.worker t),
      )
  unfolding bumps finish next_version
  version_changed r e = elim now [
    | off q h k n ↦ absurd (true≢false (sym e ∙ n t))
    | turning i q h k n ↦ on q h (ap next_version k) (λ j.
        bumper-only s.worker t (finish r (s.worker t)) false refl
          (λ u o. n u ∙ ap (λ x. nat_beq x u) ((nat_beq_iff i t).0 (sym (n t) ∙ e)) ∙ o) j
        ∙ never (nat_beq t j))
    | on q h k n ↦ absurd (true≢false (sym e ∙ n t))
    | always q h k n ↦ absurd (true≢false (sym e ∙ n t))
  ]

  pub access-Phase : (p : Place) → (s.worker t).place ≡ p → After (access t p s.shared (s.worker t))
  unfolding access finish reply bumps
  access-Phase idle e = quiet (access t idle s.shared (s.worker t)) refl refl refl
  access-Phase checking e =
      quiet (access t checking s.shared (s.worker t)) (ground arith) (ground arith)
        (ground (arith, ap bumps e))
  access-Phase claiming e =
      quiet (access t claiming s.shared (s.worker t)) (ground arith) (ground arith)
        (ground (arith, ap bumps e))
  access-Phase asking e =
      quiet (access t asking s.shared (s.worker t)) (ground arith) (ground arith)
        (ground (arith, ap bumps e))
  access-Phase (loading v) e =
      quiet (access t (loading v) s.shared (s.worker t)) refl refl (sym (ap bumps e))
  access-Phase (enabling r) e = elim (Bool-cases s.shared.enabled) [
    | inl is_on ↦
        quiet (access t (enabling r) s.shared (s.worker t)) (ground (arith, is_on))
          (ground (arith, is_on)) (ground (arith, is_on, ap bumps e))
    | inr is_off ↦ subst After (sym (if_false is_off _ _)) (turned_on r is_off)
  ]
  access-Phase (bumping r) e = version_changed r (ap bumps e)

pub idle-bumps : (p : Place) → is_idle p ≡ true → bumps p ≡ false
unfolding bumps is_idle
idle-bumps idle h = refl
idle-bumps checking h = refl
idle-bumps claiming h = refl
idle-bumps asking h = refl
idle-bumps (enabling r) h = refl
idle-bumps (bumping r) h = sym h
idle-bumps (loading v) h = refl

pub begin-bumps : (c : Call) (w : Worker) → is_idle w.place ≡ true → bumps (begin c w).place ≡ false
unfolding begin bumps
begin-bumps register_call w h = elim (Bool-cases w.registered) [
  | inl r ↦ ap (λ (v : Worker). bumps v.place) (if_true r _ _) ∙ idle-bumps w.place h
  | inr r ↦ ap (λ (v : Worker). bumps v.place) (if_false r _ _)
]
begin-bumps enable_call w h = refl
begin-bumps ask_call w h = refl
