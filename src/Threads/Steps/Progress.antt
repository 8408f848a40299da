-- ===== src/Threads/Steps/Progress.antt =====
-- No call of the thread manager waits for another thread
-- (include/reaction/concurrency/thread_manager.h).
use reaction.Prelude.{
  ℕ, suc, ◌≤◌, ◌<◌, ◌≡◌, refl, sym, ap, ◌∙◌, inl, inr, Bool, true, false, ◌||◌, List, [], ◌∷◌,
  if◌then◌else◌, nat_beq, nat_beq_iff, arith, Bool-cases, if_true, if_false,
}
use mathlib.Core.Path.{subst}
use mathlib.Core.Bool.{true≢false}
use reaction.Graph.State.{update}
use reaction.Threads.Steps.{
  Shared, Place, idle, checking, claiming, asking, enabling, bumping, loading, Worker, Call, finish,
  reply, access, System, Action, calls, moves, is_idle, perform,
}

-- At most so many accesses are left of a call.
unfoldable pub steps_left : Place → ℕ
steps_left idle = 0
steps_left checking = 4
steps_left claiming = 3
steps_left (enabling r) = 2
steps_left (bumping r) = 1
steps_left asking = 2
steps_left (loading v) = 1

-- How often the thread makes an access in the schedule.
unfoldable pub turns : ℕ → List Action → ℕ
turns t [] = 0
turns t (calls u c ∷ l) = turns t l
turns t (moves u ∷ l) = let n = turns t l in if nat_beq u t then suc n else n

-- Whether the thread is in no call at some point of the schedule.
unfoldable pub returns : ℕ → List Action → System → Bool
returns t [] s = is_idle (s.worker t).place
returns t (a ∷ l) s = let rest = returns t l (perform a s) in is_idle (s.worker t).place || rest

access-steps :
    (t : ℕ) (p : Place) (m : Shared) (w : Worker)
    → is_idle p ≡ false
    → steps_left (access t p m w).1.place < steps_left p
unfolding access finish reply steps_left is_idle
access-steps t idle m w h = absurd (true≢false h)
access-steps t checking m w h = ground arith
access-steps t claiming m w h = ground arith
access-steps t (enabling r) m w h = ground arith
access-steps t (bumping r) m w h = omega arith
access-steps t asking m w h = ground arith
access-steps t (loading v) m w h = omega arith

calls_busy :
    (u t : ℕ) (c : Call) (s : System)
    → is_idle (s.worker t).place ≡ false
    → ((perform (calls u c) s).worker t).place ≡ (s.worker t).place
unfolding perform update
calls_busy u t c s busy = elim (Bool-cases (nat_beq u t)) [
  | inl same ↦
      ap (λ (w : Worker). w.place)
        (if_true same _ _
          ∙ if_false
              (subst (λ n. is_idle (s.worker n).place ≡ false) (sym ((nat_beq_iff u t).0 same))
                busy)
              _ _
          ∙ ap s.worker ((nat_beq_iff u t).0 same))
  | inr other ↦ ap (λ (w : Worker). w.place) (if_false other _ _)
]

moves_other :
    (u t : ℕ) (s : System)
    → nat_beq u t ≡ false
    → ((perform (moves u) s).worker t).place ≡ (s.worker t).place
unfolding perform update
moves_other u t s other = ap (λ (w : Worker). w.place) (if_false other _ _)

moves_own :
    (u t : ℕ) (s : System)
    → nat_beq u t ≡ true
    → is_idle (s.worker t).place ≡ false
    → steps_left ((perform (moves u) s).worker t).place < steps_left (s.worker t).place
unfolding perform update
moves_own u t s same busy =
    let e = (nat_beq_iff u t).0 same in
    let here : ((perform (moves u) s).worker t).place
        ≡ (access t (s.worker t).place s.shared (s.worker t)).1.place =
      ap (λ (w : Worker). w.place) (if_true same _ _)
      ∙ ap (λ n. (access n (s.worker n).place s.shared (s.worker n)).1.place) e in
    omega (arith, access-steps t (s.worker t).place s.shared (s.worker t) busy, ap steps_left here)

no_steps : (p : Place) → steps_left p ≤ 0 → is_idle p ≡ true
unfolding steps_left is_idle
no_steps idle h = refl
no_steps checking h = absurd (omega (arith, h))
no_steps claiming h = absurd (omega (arith, h))
no_steps (enabling r) h = absurd (omega (arith, h))
no_steps (bumping r) h = absurd (omega (arith, h))
no_steps asking h = absurd (omega (arith, h))
no_steps (loading v) h = absurd (omega (arith, h))

enough_turns :
    (t : ℕ) (l : List Action) (s : System)
    → steps_left (s.worker t).place ≤ turns t l
    → returns t l s ≡ true
unfolding returns turns
enough_turns t [] s h = no_steps (s.worker t).place h
enough_turns t (calls u c ∷ l) s h = elim (Bool-cases (is_idle (s.worker t).place)) [
  | inl free ↦ ground (arith, free)
  | inr busy ↦ ground (
    arith,
    enough_turns t l (perform (calls u c) s)
        (ground (arith, h, ap steps_left (calls_busy u t c s busy))),
  )
]
enough_turns t (moves u ∷ l) s h = elim (Bool-cases (is_idle (s.worker t).place)) [
  | inl free ↦ ground (arith, free)
  | inr busy ↦ elim (Bool-cases (nat_beq u t)) [
    | inl same ↦ ground (
      arith,
      enough_turns t l (perform (moves u) s) (ground (arith, h, same, moves_own u t s same busy)),
    )
    | inr other ↦ ground (
      arith,
      enough_turns t l (perform (moves u) s)
          (ground (arith, h, other, ap steps_left (moves_other u t s other))),
    )
  ]
]

-- Whatever the state and whatever the other threads do: in every schedule in which a thread makes
-- four accesses, it is in no call at some point. So each call returns after at most four of its
-- own steps, and never waits.
pub wait_free_lem : (t : ℕ) (l : List Action) (s : System) → 4 ≤ turns t l → returns t l s ≡ true
unfolding steps_left
wait_free_lem t l s h = enough_turns t l s (most (s.worker t).place)
  where
    most : (p : Place) → steps_left p ≤ turns t l
    most idle = omega arith
    most checking = omega (arith, h)
    most claiming = omega (arith, h)
    most (enabling r) = omega (arith, h)
    most (bumping r) = omega (arith, h)
    most asking = omega (arith, h)
    most (loading v) = omega (arith, h)
