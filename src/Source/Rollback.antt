-- ===== src/Source/Rollback.antt =====
-- `setSource` (expression.h) succeeds whole, or changes nothing.
use reaction.Prelude.{
  ℕ, ◌≡◌, ◌≢◌, refl, sym, ap, ◌∙◌, inl, inr, Bool, true, false, Option, none, some, List,
  if◌then◌else◌, nat_eq, mem, Bool-cases, if_true, if_false,
}
use mathlib.Core.Path.{subst}
use mathlib.Core.Bool.{true≢false}
use reaction.Exception.{ok}
use reaction.Graph.State.{Graph, update}
use reaction.Graph.Invariant.{IsWellFormed, Keeps, SameEdges-refl}
use reaction.Graph.HasCycle.{SoundFor}
use reaction.Graph.State.{update_here, update_away}
use reaction.Graph.Batches.{is_node_in_active_batch}
use reaction.Graph.Edit.{save_node_state_for_rollback}
use reaction.Graph.Edit.Add.{AgreeOff, AgreeOff-of_same}
use reaction.Graph.Edit.Loop.{AllAlive}
use reaction.Graph.Edit.Transaction.{Replaced, update_observers_transactional_lem, restore_lem}
use reaction.Memory.{TypeInfo}
use reaction.Memory.Impl.{differs, impl_update_value}
use reaction.Source.{
  Thrown, reaction_error, std_error, foreign_error, is_std, Evaluation, returned, raised, Fun,
  Store, failed, pointers, all_lock, evaluate_internal, store_result, replace_fun, try_source,
  restore_value, rethrow, catch_source, set_source,
}
use reaction.Source.Ends.{
  targets-pointers, all_lock-alive, all_lock-gone, IsUnchanged, IsReason, Ends, Replaced-off,
  update_back,
}

module _ {V : Type 0} (t : TypeInfo V) where
  restore_value_lem : (old current : Option V) → current ≡ old → restore_value t old current ≡ old
  unfolding restore_value impl_update_value
  restore_value_lem none current e = e
  restore_value_lem (some v) current e =
      ap (λ o. (impl_update_value t v o).1) e ∙ either (differs t.ne v v)
    where
      either : (b : Bool) → (if b then some v else some v) ≡ some v
      either true = refl
      either false = refl

  pub update_value_lem :
      (v : V) (o : Option V)
      → ((a b : V) → differs t.ne a b ≡ false → a ≡ b)
      → (impl_update_value t v o).1 ≡ some v
  unfolding impl_update_value
  update_value_lem v none tells = refl
  update_value_lem v (some old) tells = elim (Bool-cases (differs t.ne old v)) [
    | inl new ↦ if_true new _ _
    | inr same ↦ if_false same _ _ ∙ ap (λ x. some x) (tells old v same)
  ]

  module _ (now node : ℕ) (st : Store V) (w : IsWellFormed st.graph)
      (sound : SoundFor node st.graph) (live : st.graph.alive node ≡ true) where
    -- The `catch` block, on a store that differs in the edges that leave the node and in its
    -- function only.
    catch_lem :
        (r : Thrown) (st1 : Store V)
        → is_std r ≡ true
        → IsWellFormed st1.graph
        → SoundFor node st1.graph
        → AgreeOff node st.graph st1.graph
        → Keeps st.graph st1.graph
        → ((u : ℕ) → st1.value u ≡ st.value u)
        → ((u : ℕ) → u ≢ node → st1.fun u ≡ st.fun u)
        → (st' : Store V) × (catch_source t now node st (failed r st1) ≡ failed r st')
          × IsUnchanged st st'
    unfolding catch_source rethrow save_node_state_for_rollback
    catch_lem r st1 std w1 s1 off keeps values funs =
        let (k, restored, valid, _, same) =
          restore_lem now node st.graph w sound live st1.graph w1 s1 off keeps in
        let back = record st1 {
          value = update st1.value node (restore_value t (st.value node) (st1.value node));
          fun = update st1.fun node (st.fun node);
        } in
        (
          record back { graph = k },
          if_true std _ _ ∙ ap (rethrow t r back) restored,
          record {
            valid = valid;
            edges = same;
            values = λ u.
                update_back st1.value st.value node u
                  (restore_value t (st.value node) (st1.value node))
                  (restore_value_lem (st.value node) (st1.value node) (values node))
                  (λ a. values u);
            funs = λ u. update_back st1.fun st.fun node u (st.fun node) refl (funs u);
          },
        )

    -- The attempt starts with the function moved away.
    abbrev moved : Store V
    moved = record st { fun = update st.fun node none }

    pub caught :
        (args : List ℕ) (f : Fun V) (r : Thrown) (st1 : Store V)
        → is_std r ≡ true
        → IsWellFormed st1.graph
        → SoundFor node st1.graph
        → AgreeOff node st.graph st1.graph
        → Keeps st.graph st1.graph
        → ((u : ℕ) → st1.value u ≡ st.value u)
        → ((u : ℕ) → u ≢ node → st1.fun u ≡ st.fun u)
        → IsReason node st args f r
        → Ends node st args f (catch_source t now node st (failed r st1))
    caught args f r st1 std w1 s1 off keeps values funs why =
        let (st', e, u) = catch_lem r st1 std w1 s1 off keeps values funs in
        inr (inl (r, st', e, std, why, u))

    foreign_of : (r : Thrown) → is_std r ≡ false → r ≡ foreign_error
    unfolding is_std
    foreign_of (reaction_error e) h = absurd (true≢false h)
    foreign_of std_error h = absurd (true≢false h)
    foreign_of foreign_error h = refl

    -- After the dependencies were replaced.
    pub evaluated_Ends :
        (args : List ℕ) (f : Fun V) (g : Graph) (o : Evaluation V)
        → ((a b : V) → differs t.ne a b ≡ false → a ≡ b)
        → Replaced node args st.graph g
        → f st.value ≡ o
        → Ends node st args f (
            catch_source t now node st (
              store_result t node
                (record st { graph = g; fun = update (update st.fun node none) node (some f) })
                o))
    unfolding store_result catch_source
    evaluated_Ends args f g (returned v) tells r e = inl (
      record st {
        graph = g;
        fun = update (update st.fun node none) node (some f);
        value = update st.value node (impl_update_value t v (st.value node)).1;
      },
      refl,
      record {
        edges = r;
        fun_here = update_here (update st.fun node none) node (some f);
        funs = λ u a. twice f u a;
        result = v;
        evaluated = e;
        value_here =
            update_here st.value node (impl_update_value t v (st.value node)).1
            ∙ update_value_lem v (st.value node) tells;
        values = λ u a. update_away st.value node u (impl_update_value t v (st.value node)).1 a;
      },
    )
      where
        twice :
            (f : Fun V) (u : ℕ)
            → u ≢ node
            → update (update st.fun node none) node (some f) u ≡ st.fun u
        twice f u a =
            update_away (update st.fun node none) node u (some f) a
            ∙ update_away st.fun node u none a
    evaluated_Ends args f g (raised r) tells p e = elim (Bool-cases (is_std r)) [
      | inl std ↦
          caught args f r
            (record st { graph = g; fun = update (update st.fun node none) node (some f) }) std
            p.valid p.sound (Replaced-off node args st.graph g p) p.keeps (λ u. refl)
            (λ u a.
              update_away (update st.fun node none) node u (some f) a
              ∙ update_away st.fun node u none a)
            (inr (inr e))
      | inr other ↦ inr (
          inr (
            record st { graph = g; fun = update (update st.fun node none) node (some f) },
            if_false other _ _
                ∙ ap
                    (λ x. failed x (record st {
                      graph = g;
                      fun = update (update st.fun node none) node (some f);
                    }))
                    (foreign_of r other),
            record {
              edges = p;
              fun_here = update_here (update st.fun node none) node (some f);
              evaluated = e ∙ ap (λ x. raised x) (foreign_of r other);
              values = λ u. refl;
            },
          ))
    ]

    Replaced-Ends :
        (args : List ℕ) (f : Fun V) (g : Graph)
        → ((a b : V) → differs t.ne a b ≡ false → a ≡ b)
        → Replaced node args st.graph g
        → Ends node st args f (catch_source t now node st (replace_fun t node f moved (ok tt g)))
    unfolding replace_fun evaluate_internal
    Replaced-Ends args f g tells r =
        subst
          (λ o. Ends node st args f (
            catch_source t now node st (
              store_result t node
                (record st { graph = g; fun = update (update st.fun node none) node (some f) })
                (evaluate_internal t o st.value))))
          (sym (update_here (update st.fun node none) node (some f)))
          (evaluated_Ends args f g (f st.value) tells r refl)

    tried_Ends :
        (args : List ℕ) (f : Fun V)
        → ((a b : V) → differs t.ne a b ≡ false → a ≡ b)
        → Ends node st args f (catch_source t now node st (try_source t now node args f moved))
    unfolding try_source replace_fun is_std
    tried_Ends args f tells = elim (Bool-cases (all_lock st.graph args)) [
      | inr gone ↦
          subst (λ a. Ends node st args f (catch_source t now node st a)) (sym (if_false gone _ _))
            (caught args f _ moved refl w sound
              (AgreeOff-of_same node st.graph st.graph (SameEdges-refl st.graph))
              (SameEdges-refl st.graph).keeps (λ u. refl) (λ u a. update_away st.fun node u none a)
              (inl (all_lock-gone st.graph args gone)))
      | inl all ↦
          subst (λ a. Ends node st args f (catch_source t now node st a)) (sym (if_true all _ _))
            (elim (update_observers_transactional_lem now node st.graph w sound live (pointers args)
              (subst (AllAlive st.graph) (sym (targets-pointers args))
                (all_lock-alive st.graph args all))) [
                  | inl (g, e, r) ↦
                      subst
                        (λ a.
                          Ends node st args f
                            (catch_source t now node st (replace_fun t node f moved a)))
                        (sym e)
                        (Replaced-Ends args f g tells
                          (subst (λ ds. Replaced node ds st.graph g) (targets-pointers args) r))
                  | inr (x, g, e, r) ↦
                      subst
                        (λ a.
                          Ends node st args f
                            (catch_source t now node st (replace_fun t node f moved a)))
                        (sym e)
                        (caught args f (reaction_error x) (record moved { graph = g }) refl r.valid
                          r.sound (AgreeOff-of_same node st.graph g r.same) r.same.keeps (λ u. refl)
                          (λ u a. update_away st.fun node u none a)
                          (inr (
                            inl (
                              r.culprit,
                              subst (λ ds. mem r.culprit ds ≡ true) (targets-pointers args)
                                  r.listed,
                              r.closes,
                            ))))
                ])
    ]

    -- `setSource` of a living node of a well-formed graph whose cached answers for it are right,
    -- for a result type that converts, outside of every active batch, and for a comparison that
    -- tells different values apart, always ends in one of three ways. It returns, and the node has
    -- exactly the given dependencies, the new function and the value that this gives, all else
    -- being as before; or a given node is gone or leads to the node, or the function threw, it
    -- throws a `std::exception`, the function's own one in the last case, and the edges, the values
    -- and the functions are as before; or the function threw something else, and the node keeps its
    -- value but has the new function and the new dependencies.
    pub set_source_lem :
        (args : List ℕ) (f : Fun V)
        → is_node_in_active_batch st.graph node ≡ false
        → ((a b : V) → differs t.ne a b ≡ false → a ≡ b)
        → Ends node st args f (set_source t true now node args f st)
    unfolding set_source
    set_source_lem args f free tells =
        subst (Ends node st args f) (sym (if_false free _ _)) (tried_Ends args f tells)
