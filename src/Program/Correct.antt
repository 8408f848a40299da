-- ===== src/Program/Correct.antt =====
-- Whatever a program does with values, its network stays settled.
use reaction.Prelude.{
  ℕ, ◌<◌, ◌≡◌, ◌≢◌, inl, inr, refl, sym, ap, ◌∙◌, Bool, true, false, Option, List, [], ◌∷◌,
  if◌then◌else◌, nat_beq, nat_beq_iff, mem, Bool-cases, if_true, if_false,
}
use mathlib.Core.Path.{subst}
use mathlib.Core.Bool.{true≢false}
use reaction.Propagation.{Network, State, var_node}
use reaction.Propagation.Settle.{IsSensible}
use reaction.Propagation.Answers.{IsRanked}
use reaction.Propagation.Correct.{set_value_lem}
use reaction.Assign.{Ending, returned, ended, has_meaning, new_value}
use reaction.Assign.Correct.{react_change_lem}
use reaction.Batch.Nodes.{written}
use reaction.Batch.Order.{last_write}
use reaction.Batch.Calls.{World, sets, changes, then_run, with_state}
use reaction.Batch.Calls.Immediate.{batch_execute-Executed}
use reaction.Program.{Action, calls, executes, call, act, act_all}
use reaction.Program.Sound.{IsSound, with_values-IsSound, executed-IsSound}

module _ (w : ℕ) (net : Network ℕ) where
  -- The value that an action leaves in a variable that held `old`.
  abbrev pub leaves : Action → ℕ → ℕ → ℕ
  leaves (calls (sets n v)) m old = if nat_beq n m then v else old
  leaves (calls (changes n c)) m old = if nat_beq n m then new_value w c old else old
  leaves (executes now id writes) m old = last_write net writes m old

  abbrev pub leaves_all : List Action → ℕ → ℕ → ℕ
  leaves_all [] m old = old
  leaves_all (a ∷ rest) m old = leaves_all rest m (leaves a m old)

module _ (w : ℕ) (net : Network ℕ) (rank : ℕ → ℕ) (live : ℕ → Bool) (fuel : ℕ)
    (owners : ℕ → List ℕ) where
  -- A variable that is alive, with fuel above its rank.
  abbrev pub IsUsable : ℕ → Type 0
  IsUsable n = (live n ≡ true) × (rank n < fuel) × (net.kind n ≡ var_node)

  -- The action is on usable variables, its operator has a meaning, its batch is a new one.
  abbrev pub IsProper : Action → Type 0
  IsProper (calls (sets n v)) = IsUsable n
  IsProper (calls (changes n c)) = IsUsable n × (has_meaning w c ≡ true)
  IsProper (executes now id writes) =
      ((n : ℕ) → mem n (written writes) ≡ true → IsUsable n) × ((n : ℕ) → mem id (owners n) ≡ false)

  abbrev pub AreProper : List Action → Type 0
  AreProper [] = Unit {0}
  AreProper (a ∷ rest) = IsProper a × AreProper rest

  -- An action that returns, keeps the world sound, and leaves what it should.
  abbrev Done : (ℕ → ℕ → ℕ) → World → Ending World (Unit {0}) → Type 0
  Done left x e =
      (y : World) × (e ≡ returned tt y)
      × IsSound net rank live owners y
      × ((m : ℕ) → net.kind m ≡ var_node → y.state.value m ≡ left m (x.state.value m))

  module _ (sane : IsSensible net) where
    network-IsRanked : (x : World) → IsSound net rank live owners x → IsRanked net rank
    network-IsRanked x k = record {
      falls = λ n o h. k.sound.ranked.falls n o (sym (k.sound.same n o) ∙ h);
    }

    -- From what the lemmas on one variable say.
    one_variable :
        (n : ℕ) (f : ℕ → ℕ) (s s' : State ℕ)
        → s'.value n ≡ f (s.value n)
        → ((m : ℕ) → m ≢ n → net.kind m ≡ var_node → s'.value m ≡ s.value m)
        → (m : ℕ) → net.kind m ≡ var_node
        → s'.value m ≡ (if nat_beq n m then f (s.value m) else s.value m)
    one_variable n f s s' here away m k = elim (Bool-cases (nat_beq n m)) [
      | inl same ↦
          subst (λ y. s'.value y ≡ f (s.value y)) ((nat_beq_iff n m).0 same) here
          ∙ sym (if_true same _ _)
      | inr other ↦
          away m (λ z. true≢false (sym ((nat_beq_iff n m).1 (sym z)) ∙ other)) k
          ∙ sym (if_false other _ _)
    ]

    act_lem :
        (a : Action) (x : World)
        → IsProper a
        → IsSound net rank live owners x
        → Done (leaves w net a) x (act w net fuel a x)
    unfolding act call with_state ended
    act_lem (calls (sets n v)) x (alive, enough, var) k =
        let (s, eq, done, here, away) =
          set_value_lem net rank fuel n v x.state sane (network-IsRanked x k) enough var
            k.settled in
        (
          record x { state = s },
          if_true (k.sound.alive n ∙ alive) _ _ ∙ ap (λ o. with_state tt x (ended tt o)) eq,
          with_values-IsSound net rank live owners x s k done,
          one_variable n (λ o. v) x.state s here away,
        )
    act_lem (calls (changes n c)) x ((alive, enough, var), meant) k =
        let (s, eq, done, here, away) =
          react_change_lem w net x.graph.alive rank fuel c n x.state sane (network-IsRanked x k)
            enough var (k.sound.alive n ∙ alive) meant k.settled in
        (
          record x { state = s },
          ap (λ (r : Ending (State ℕ) (Option ℕ)). with_state tt x r) eq,
          with_values-IsSound net rank live owners x s k done,
          one_variable n (new_value w c) x.state s here away,
        )
    act_lem (executes now id writes) x (fits, new) k =
        let e =
          batch_execute-Executed w net fuel x.graph rank k.sound.well_formed k.sound.right
            k.sound.levelled k.sound.ranked now id writes x.state
            (λ n m. let (alive, enough, var) = fits n m in (k.sound.alive n ∙ alive, enough, var))
            sane k.sound.same k.settled in
        (
          _,
          e.result,
          executed-IsSound net rank live owners x id e.out e.depth' e.cache' e.state' k new e.right
              e.levelled e.settled,
          e.values,
        )

    -- In a sensible network whose edges the graph has, in a sound world: any sequence of calls of
    -- `value`, compound assignments, increments and decrements outside batches, and of calls of
    -- `batchExecute` with functions that call `value`, on living variables with fuel above their
    -- ranks, with operators that have a meaning and batches that are new, returns. The world is
    -- sound again, so every calculation without a filter agrees with what it reads, and each
    -- variable holds what the actions leave one after the other.
    pub act_all_lem :
        (actions : List Action) (x : World)
        → AreProper actions
        → IsSound net rank live owners x
        → (y : World) × (act_all w net fuel actions x ≡ returned tt y)
          × IsSound net rank live owners y
          × ((m : ℕ)
              → net.kind m ≡ var_node
              → y.state.value m ≡ leaves_all w net actions m (x.state.value m))
    unfolding act_all then_run
    act_all_lem [] x proper k = (x, refl, k, λ m v. refl)
    act_all_lem (a ∷ rest) x (first, later) k =
        let (y, eq, sound, left) = act_lem a x first k in
        let (z, eq2, sound2, left2) = act_all_lem rest y later sound in
        (
          z,
          ap (λ (r : Ending World (Unit {0})). then_run r (λ _ t. act_all w net fuel rest t)) eq
              ∙ eq2,
          sound2,
          λ m v. left2 m v ∙ ap (leaves_all w net rest m) (left m v),
        )
