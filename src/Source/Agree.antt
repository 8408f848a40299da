-- ===== src/Source/Agree.antt =====
-- Two calls that set the same source end alike (include/reaction/expression/expression.h,
-- include/reaction/core/react.h).
use reaction.Prelude.{
  ℕ, ◌≡◌, refl, sym, ap, ◌∙◌, ◌⊎◌, inl, inr, Bool, true, false, List, nat_beq_iff, nat_eq, mem,
  if_true,
}
use mathlib.Core.Bool.{true≢false}
use reaction.Graph.State.{Graph}
use reaction.Graph.Edit.Transaction.{Replaced}
use reaction.Source.{
  Thrown, is_std, Evaluation, returned, raised, foreign_error, Fun, Store, Attempt, finished,
  failed,
}
use reaction.Source.Ends.{IsUnchanged, IsReplaced, IsHalfDone, IsReason, Ends}

-- Both calls return and replace the source; or both throw a `std::exception` for a reason and
-- change nothing; or both throw what is none, and leave the new function and the new dependencies.
abbrev pub BothEnd : {V : Type 0} → ℕ → Store V → List ℕ → Fun V → Attempt V → Attempt V → Type 0
BothEnd {V} node st args f a b =
    ((s : Store V) × (s' : Store V) × (a ≡ finished s)
      × (b ≡ finished s')
      × IsReplaced node args f st s
      × IsReplaced node args f st s')
    ⊎ (((r : Thrown) × (s : Store V) × (r' : Thrown) × (s' : Store V) × ((a ≡ failed r s)
            × (b ≡ failed r' s'))
          × ((is_std r ≡ true) × (is_std r' ≡ true))
          × (IsReason node st args f r × IsReason node st args f r')
          × (IsUnchanged st s × IsUnchanged st s'))
        ⊎ ((s : Store V) × (s' : Store V) × (a ≡ failed foreign_error s)
            × (b ≡ failed foreign_error s')
            × IsHalfDone node args f st s
            × IsHalfDone node args f st s'))

module _ {V : Type 0} (node : ℕ) (st : Store V) (args : List ℕ) (f : Fun V) where
  -- A new dependency is alive.
  pub Replaced-alive :
      (g : Graph) (d : ℕ)
      → Replaced node args st.graph g
      → mem d args ≡ true
      → st.graph.alive d ≡ true
  Replaced-alive g d r m =
      sym (r.keeps.alive d)
      ∙ r.valid.owned d
          (r.valid.known node d (r.deps node d ∙ if_true ((nat_beq_iff node node).1 refl) _ _ ∙ m))

  -- Only the function can be the reason when the dependencies were replaced.
  only_raised :
      (g : Graph) (r : Thrown)
      → Replaced node args st.graph g
      → IsReason node st args f r
      → f st.value ≡ raised r
  only_raised g r p why = elim why [
    | inl (d, m, gone) ↦ absurd (true≢false (sym (Replaced-alive g d p m) ∙ gone))
    | inr (inl (d, m, leads)) ↦ absurd (p.allowed d m leads)
    | inr (inr threw) ↦ threw
  ]

  has_returned : Evaluation V → Bool
  has_returned (returned v) = true
  has_returned (raised r) = false

  is_std_error : Evaluation V → Bool
  is_std_error (returned v) = true
  is_std_error (raised r) = is_std r

  returned≢raised : (v : V) (r : Thrown) → f st.value ≡ returned v → f st.value ≡ raised r → ⊥
  unfolding has_returned
  returned≢raised v r e e' = true≢false (ap has_returned (sym e ∙ e'))

  std≢foreign :
      (r : Thrown) → is_std r ≡ true → f st.value ≡ raised r → f st.value ≡ raised foreign_error → ⊥
  unfolding is_std_error is_std
  std≢foreign r std e e' = true≢false (sym std ∙ ap is_std_error (sym e ∙ e'))

  -- The ways to end exclude each other.
  pub Ends-BothEnd :
      (a b : Attempt V) → Ends node st args f a → Ends node st args f b → BothEnd node st args f a b
  Ends-BothEnd a b (inl (s, e, p)) (inl (s', e', p')) = inl (s, s', e, e', p, p')
  Ends-BothEnd a b (inl (s, e, p)) (inr (inl (r', s', e', std', why', u'))) =
      absurd (returned≢raised p.result r' p.evaluated (only_raised s.graph r' p.edges why'))
  Ends-BothEnd a b (inl (s, e, p)) (inr (inr (s', e', p'))) =
      absurd (returned≢raised p.result foreign_error p.evaluated p'.evaluated)
  Ends-BothEnd a b (inr (inl (r, s, e, std, why, u))) (inl (s', e', p')) =
      absurd (returned≢raised p'.result r p'.evaluated (only_raised s'.graph r p'.edges why))
  Ends-BothEnd a b (inr (inl (r, s, e, std, why, u))) (inr (inl (r', s', e', std', why', u'))) =
      inr (inl (r, s, r', s', (e, e'), (std, std'), (why, why'), (u, u')))
  Ends-BothEnd a b (inr (inl (r, s, e, std, why, u))) (inr (inr (s', e', p'))) =
      absurd (std≢foreign r std (only_raised s'.graph r p'.edges why) p'.evaluated)
  Ends-BothEnd a b (inr (inr (s, e, p))) (inl (s', e', p')) =
      absurd (returned≢raised p'.result foreign_error p'.evaluated p.evaluated)
  Ends-BothEnd a b (inr (inr (s, e, p))) (inr (inl (r', s', e', std', why', u'))) =
      absurd (std≢foreign r' std' (only_raised s.graph r' p.edges why') p.evaluated)
  Ends-BothEnd a b (inr (inr (s, e, p))) (inr (inr (s', e', p'))) = inr (inr (s, s', e, e', p, p'))
