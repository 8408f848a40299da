-- ===== src/Threads/Steps/Steady.antt =====
-- What holds of the thread manager between any two steps
-- (include/reaction/concurrency/thread_manager.h).
use reaction.Prelude.{
  ℕ, ◌≡◌, ◌≢◌, inl, inr, refl, sym, ◌∙◌, Bool, true, false, List, [], ◌∷◌, nat_beq, nat_beq_iff,
  arith, Bool-cases, if_true, if_false,
}
use mathlib.Core.Path.{subst}
use mathlib.Core.Bool.{true≢false}
use reaction.Graph.State.{update, update_here, update_away}
use reaction.Threads.Steps.{
  Shared, checking, asking, enabling, Worker, Call, register_call, enable_call, ask_call, begin,
  access, System, fresh_worker, new_system, Action, calls, moves, is_idle, perform, schedule,
}
use reaction.Threads.Steps.Relies.{
  bumps, Relies, Advances, Relies-later, access-Advances, goes-Relies, access-Relies,
}
use reaction.Threads.Steps.Phases.{
  Phase, off, turning, on, always, bumpers, quiet, access-Phase, idle-bumps, begin-bumps,
}

-- Between any two steps: a phase, and what each thread relies on.
pub record IsSteady (mode : Bool) (s : System) : Type 0 where
  pub phase : Phase mode s.shared (bumpers s)
  pub relies : (t : ℕ) → Relies mode s.shared t (s.worker t)

module _ (mode : Bool) (s : System) (k : IsSteady mode s) where
  pub two-enabled : s.shared.safety_version ≡ 2 → s.shared.enabled ≡ true
  two-enabled e = elim k.phase [
    | off q h v n ↦ absurd (apart (sym v ∙ e))
    | turning i q h v n ↦ h
    | on q h v n ↦ h
    | always q h v n ↦ h
  ]
    where
      apart : ◌≢◌ {A = ℕ} 1 2
      apart e = omega arith

  pub mode-enabled : mode ≡ true → s.shared.enabled ≡ true
  mode-enabled e = elim k.phase [
    | off q h v n ↦ absurd (true≢false (sym e ∙ q))
    | turning i q h v n ↦ h
    | on q h v n ↦ h
    | always q h v n ↦ h
  ]

  -- A worker that changes alone, in the same shared members.
  pub changed :
      (t : ℕ) (m : Shared) (w : Worker)
      → Advances s.shared m
      → Relies mode m t w
      → (u : ℕ) → Relies mode m u (update s.worker t w u)
  changed t m w a r u = elim (Bool-cases (nat_beq t u)) [
    | inl same ↦
        let e = (nat_beq_iff t u).0 same in
        subst (λ n. Relies mode m n (update s.worker t w n)) e
          (subst (Relies mode m t) (sym (update_here s.worker t w)) r)
    | inr other ↦
        subst (Relies mode m u)
          (sym (
            update_away s.worker t u w
              (λ e. true≢false (sym ((nat_beq_iff t u).1 (sym e)) ∙ other))))
          (Relies-later mode s.shared m u (s.worker u) a (k.relies u))
  ]

  moves-IsSteady : (t : ℕ) → IsSteady mode (perform (moves t) s)
  unfolding perform
  moves-IsSteady t = record {
    phase = access-Phase mode t s k.phase (s.worker t).place refl;
    relies =
        changed t (access t (s.worker t).place s.shared (s.worker t)).0
          (access t (s.worker t).place s.shared (s.worker t)).1
          (access-Advances t (s.worker t).place s.shared (s.worker t))
          (access-Relies mode t s.shared (s.worker t) two-enabled mode-enabled (k.relies t)
            (s.worker t).place refl);
  }

  begin-Relies : (t : ℕ) (c : Call) → Relies mode s.shared t (begin c (s.worker t))
  unfolding begin bumps
  begin-Relies t register_call = elim (Bool-cases (s.worker t).registered) [
    | inl r ↦ subst (Relies mode s.shared t) (sym (if_true r _ _)) (k.relies t)
    | inr r ↦
        subst (Relies mode s.shared t) (sym (if_false r _ _))
          (goes-Relies mode s.shared t (s.worker t) (k.relies t) checking (λ v z. cc) (λ h. cc))
  ]
  begin-Relies t enable_call =
      goes-Relies mode s.shared t (s.worker t) (k.relies t) (enabling false) (λ v z. cc) (λ h. cc)
  begin-Relies t ask_call =
      goes-Relies mode s.shared t (s.worker t) (k.relies t) asking (λ v z. cc) (λ h. cc)

  with_worker :
      (t : ℕ) (w : Worker)
      → Relies mode s.shared t w
      → bumps w.place ≡ bumps (s.worker t).place
      → IsSteady mode (record s { worker = update s.worker t w })
  with_worker t w r e = record {
    phase = quiet mode t s k.phase (s.shared, w) refl refl e;
    relies = changed t s.shared w (record { stays = λ h. h; keeps = λ u h. h }) r;
  }

  calls-IsSteady : (t : ℕ) (c : Call) → IsSteady mode (perform (calls t c) s)
  unfolding perform
  calls-IsSteady t c = elim (Bool-cases (is_idle (s.worker t).place)) [
    | inl free ↦
        subst (λ w. IsSteady mode (record s { worker = update s.worker t w }))
          (sym (if_true free _ _))
          (with_worker t (begin c (s.worker t)) (begin-Relies t c)
            (begin-bumps c (s.worker t) free ∙ sym (idle-bumps (s.worker t).place free)))
    | inr busy ↦
        subst (λ w. IsSteady mode (record s { worker = update s.worker t w }))
          (sym (if_false busy _ _)) (with_worker t (s.worker t) (k.relies t) refl)
  ]

  perform-IsSteady : (a : Action) → IsSteady mode (perform a s)
  perform-IsSteady (calls t c) = calls-IsSteady t c
  perform-IsSteady (moves t) = moves-IsSteady t

fresh-Relies : (mode : Bool) (m : Shared) (t : ℕ) → Relies mode m t fresh_worker
unfolding bumps
fresh-Relies mode m t = record {
  known = λ h. absurd (true≢false (sym h));
  second = λ h. absurd (no_two h);
  first = λ q h. absurd (no_one h);
  loads = λ v z. cc;
  bumped = λ h. absurd (true≢false (sym h));
}
  where
    no_two : ◌≢◌ {A = ℕ} 0 2
    no_two e = omega arith

    no_one : ◌≢◌ {A = ℕ} 0 1
    no_one e = omega arith

new_system-IsSteady : (mode : Bool) → IsSteady mode (new_system mode)
unfolding bumps
new_system-IsSteady true = record {
  phase = always refl refl refl (λ i. refl);
  relies = fresh-Relies _ _;
}
new_system-IsSteady false = record {
  phase = off refl refl refl (λ i. refl);
  relies = fresh-Relies _ _;
}

-- Every schedule leads from one such state to another.
pub schedule-IsSteady :
    (mode : Bool) (l : List Action) (s : System) → IsSteady mode s → IsSteady mode (schedule l s)
unfolding schedule
schedule-IsSteady mode [] s k = k
schedule-IsSteady mode (a ∷ l) s k =
    schedule-IsSteady mode l (perform a s) (perform-IsSteady mode s k a)

pub reached-IsSteady :
    (mode : Bool) (l : List Action) → IsSteady mode (schedule l (new_system mode))
reached-IsSteady mode l = schedule-IsSteady mode l (new_system mode) (new_system-IsSteady mode)
