-- ===== src/Factory/Calc.antt =====
-- What `calc` leaves (include/reaction/factory/reactive_factory.h).
use reaction.Prelude.{ℕ, suc, ◌≡◌, true, [], nat_eq}
use reaction.Graph.State.{Graph, add_node}
use reaction.Memory.{TypeInfo}
use reaction.Source.{Store, finished}
use reaction.Source.Ends.{Ends}
use reaction.Factory.{notify_stores, notify_store}

-- The store with a new node in its graph.
abbrev pub with_node : {V : Type 0} → ℕ → Store V → Store V
with_node node st = record st { graph = add_node node st.graph }

module _ {V : Type 0} (t : TypeInfo V) where
  -- A node without observers notifies no one.
  pub no_observers :
      (fuel node : ℕ) (st : Store V)
      → st.graph.observers node ≡ []
      → notify_store t (suc fuel) node true st ≡ finished st
  unfolding notify_store notify_stores
  no_observers fuel node st e = rw (notify_store, e)
