-- ===== src/Handles/LastValue.antt =====
-- `LastHandle` (include/reaction/policy/invalidation.h): the node becomes a constant.
use reaction.Prelude.{
  ℕ, suc, Bool, ◌≡◌, refl, sym, ap, ◌∙◌, ◌⊎◌, inl, inr, true, false, Option, none, some, [],
  if◌then◌else◌, nat_beq, nat_eq, mem, nil_of_not-mem, Bool-cases, if_true, if_false,
}
use reaction.Graph.State.{Graph, update, update_here, update_away, dependents}
use reaction.Graph.Invariant.{IsWellFormed}
use reaction.Graph.HasCycle.{SoundFor}
use reaction.Graph.Batches.{is_node_in_active_batch}
use reaction.Graph.Edit.{update_observers_transactional}
use reaction.Graph.Edit.Transaction.{targets, Replaced, update_observers_transactional_lem}
use reaction.Exception.{Result, ok}
use reaction.Memory.{TypeInfo}
use reaction.Memory.Impl.{differs, impl_update_value}
use reaction.Source.{Store, Attempt, finished, failed, no_fuel, store_result, catch_source}
use reaction.Source.Rollback.{update_value_lem}
use reaction.Source.Ends.{IsReplaced}
use reaction.Factory.{and_then, notify_store}
use reaction.Factory.Calc.{no_observers}
use reaction.Tracking.{
  gives, untracked, tracked, store_tracked, try_tracked, set_tracked, set_reading,
}
use reaction.Handles.{close_handle}

module _ {V : Type 0} (t : TypeInfo V) (held : ℕ → Bool) where
  -- `source.close()`
  unfoldable close_source : ℕ → Store V → Store V
  close_source n st = record st { graph = close_handle held n st.graph }

  -- What `set` left: if it threw, the node is closed. `none` if the fuel ran out.
  unfoldable pub last_or_close : ℕ → Attempt V → Option (Store V)
  unfolding close_source
  last_or_close n (finished st) = some st
  last_or_close n (failed r st) = some (close_source n st)
  last_or_close n no_fuel = none

  -- `LastHandle::handleInvalidImpl`; `get` throws if there is no value.
  unfoldable pub last_handle : ℕ → ℕ → ℕ → Store V → Option (Store V)
  unfolding last_or_close set_reading close_source
  last_handle now fuel n st = elim (st.value n) [
    | none ↦ some (close_source n st)
    | some v ↦ last_or_close n (set_reading t now fuel n (gives v) st)
  ]

  module _ (now fuel node : ℕ) (v : V) (st : Store V) (w : IsWellFormed st.graph)
      (sound : SoundFor node st.graph) (live : st.graph.alive node ≡ true)
      (unread : st.graph.observers node ≡ []) where
    still_unread : (h : Graph) → Replaced node [] st.graph h → h.observers node ≡ []
    unfolding mem
    still_unread h r =
        nil_of_not-mem (h.observers node)
          λ a. r.valid.symmetric a node ∙ r.deps a node ∙ either a (Bool-cases (nat_beq node a))
      where
        either :
            (a : ℕ)
            → (nat_beq node a ≡ true) ⊎ (nat_beq node a ≡ false)
            → (if nat_beq node a then false else mem node (dependents st.graph a)) ≡ false
        either a (inl e) = if_true e _ _
        either a (inr e) = if_false e _ _ ∙ sym (w.symmetric a node) ∙ ap (mem a) unread

    abbrev constant : Graph → Store V
    constant h = record {
      graph = h;
      value = update st.value node (impl_update_value t v (st.value node)).1;
      fun = update (update st.fun node none) node (some (untracked (gives v)));
    }

    set_constant :
        (h : Graph)
        → is_node_in_active_batch st.graph node ≡ false
        → update_observers_transactional now (some node) [] st.graph ≡ ok tt h
        → set_tracked t now node (gives v) st ≡ finished (constant h)
    unfolding set_tracked try_tracked tracked store_tracked store_result catch_source
    set_constant h free e = if_false free _ _ ∙ ap after e
      where
        after : Result Graph (Unit {0}) → Attempt V
        after o =
            catch_source t now node st
              (try_tracked t now node (gives v) (record st { fun = update st.fun node none }) o)

    -- `LastHandle` on a living node with a value, which no node depends on and which is in no
    -- active batch, in a well-formed graph whose cached answers for it are right, for a comparison
    -- that tells different values apart: the node depends on nothing and keeps its value, its
    -- function gives this value, and all else is as before.
    pub last_value_lem :
        st.value node ≡ some v
        → is_node_in_active_batch st.graph node ≡ false
        → ((a b : V) → differs t.ne a b ≡ false → a ≡ b)
        → (st' : Store V) × (last_handle now (suc fuel) node st ≡ some st')
          × IsReplaced node [] (untracked (gives v)) st st'
          × (st'.value node ≡ st.value node)
    unfolding last_handle last_or_close set_reading and_then untracked mem targets
    last_value_lem holds free tells =
        elim (update_observers_transactional_lem now node st.graph w sound live []
          (λ u l. absurd (never l))) [
            | inr (x, h, e, r) ↦ absurd (never r.listed)
            | inl (h, e, r) ↦ (
              constant h,
              opened
                  ∙ ap (λ a. last_or_close node (and_then (notify_store t (suc fuel) node true) a))
                      (set_constant h free e)
                  ∙ ap (last_or_close node)
                      (no_observers t fuel node (constant h) (still_unread h r)),
              record {
                edges = r;
                fun_here = update_here (update st.fun node none) node (some (untracked (gives v)));
                funs = λ u a.
                    update_away (update st.fun node none) node u (some (untracked (gives v))) a
                    ∙ update_away st.fun node u none a;
                result = v;
                evaluated = refl;
                value_here = kept;
                values =
                    λ u a. update_away st.value node u (impl_update_value t v (st.value node)).1 a;
              },
              kept ∙ sym holds,
            )
          ]
      where
        never : false ≡ true → ⊥
        never e = cc

        opened :
            last_handle now (suc fuel) node st
            ≡ last_or_close node (set_reading t now (suc fuel) node (gives v) st)
        opened = ap either holds
          where
            either : Option V → Option (Store V)
            either none = some (close_source node st)
            either (some x) = last_or_close node (set_reading t now (suc fuel) node (gives x) st)

        kept : update st.value node (impl_update_value t v (st.value node)).1 node ≡ some v
        kept =
            update_here st.value node (impl_update_value t v (st.value node)).1
            ∙ update_value_lem t v (st.value node) tells
