-- ===== src/Tracking/Reads.antt =====
-- What tracking makes of the dependencies (include/reaction/core/react.h,
-- include/reaction/expression/expression.h).
use reaction.Prelude.{
  ℕ, ◌≡◌, refl, sym, ap, ◌∙◌, ◌⊎◌, inl, inr, true, false, Option, none, some, List, [], ◌∷◌, nat_eq,
  mem, arith, Bool-cases, Option-cases, if_false, nat_beq, nat_beq_iff, ◌||◌,
}
use mathlib.Core.Path.{subst}
use reaction.Prelude.Walks.{Reach}
use reaction.Graph.Edges.{Edge}
use reaction.Exception.{ok}
use reaction.Graph.State.{Graph, update, update_away, invalidate_caches}
use reaction.Graph.Invariant.{IsWellFormed, Keeps, Keeps-refl, Keeps-trans}
use reaction.Graph.HasCycle.{SoundFor}
use reaction.Graph.Batches.{is_node_in_active_batch}
use reaction.Graph.Edit.{add_observer, add_observer_internal}
use reaction.Graph.Edit.Add.{
  AgreeOff, AgreeOff-trans, AgreeOff-of_same, Reach-off, Added, Added-off,
  add_observer_internal_lem,
}
use reaction.Graph.Edit.Loop.{AddedAll, AddedAll-cons}
use reaction.Graph.Edit.Public.{
  invalidated-IsSound, invalidated-IsWellFormed, add_observer_returns, add_observer_throws,
}
use reaction.Graph.Edit.Transaction.{targets, Replaced, update_observers_transactional_lem}
use reaction.Memory.{TypeInfo}
use reaction.Memory.Impl.{differs}
use reaction.Source.{Thrown, reaction_error, is_std, raised, Store, store_result, catch_source}
use reaction.Source.Rollback.{caught, evaluated_Ends}
use reaction.Source.Ends.{Ends, Replaced-off}
use reaction.Tracking.{
  Program, gives, throws, reads, expired, untracked, tracked, store_tracked, try_tracked,
  set_tracked,
}

-- The nodes that the function reads, in their order.
unfoldable pub read_nodes : {V : Type 0} → Program V → (ℕ → Option V) → List ℕ
read_nodes (gives v) values = []
read_nodes (throws r) values = []
read_nodes (reads n k) values = n ∷ elim (values n) [ none ↦ [] | some v ↦ read_nodes (k v) values ]

-- An exception of the library stopped the function; only edges that leave the node may have
-- changed.
record WasStopped (node : ℕ) (ds : List ℕ) (g g' : Graph) : Type 0 where
  valid : IsWellFormed g'
  sound : SoundFor node g'
  keeps : Keeps g g'
  off : AgreeOff node g g'
  culprit : ℕ
  listed : mem culprit ds ≡ true
  why : (g.alive culprit ≡ false) ⊎ Reach (Edge g) culprit node

invalidated-Added : (s t : ℕ) (g k : Graph) → Added s t g k → Added s t g (invalidate_caches k)
unfolding invalidate_caches
invalidated-Added s t g k a = record {
  valid = invalidated-IsWellFormed k a.valid;
  sound = invalidated-IsSound k s;
  keeps = record {
    alive = a.keeps.alive;
    depth = a.keeps.depth;
    name_list = a.keeps.name_list;
    active_batch_nodes = a.keeps.active_batch_nodes;
    active_batch_ids = a.keeps.active_batch_ids;
  };
  allowed = a.allowed;
  deps = a.deps;
}

AddedAll-nil : (s : ℕ) (g : Graph) → IsWellFormed g → SoundFor s g → AddedAll s [] g g
unfolding mem
AddedAll-nil s g w sound = record {
  valid = w;
  sound = sound;
  keeps = Keeps-refl g;
  allowed = λ t h. cc;
  deps = λ x y. ground arith;
}

WasStopped-after :
    (s t : ℕ) (ds : List ℕ) (g h k : Graph)
    → Added s t g h
    → WasStopped s ds h k
    → WasStopped s (t ∷ ds) g k
unfolding mem
WasStopped-after s t ds g h k a r = record {
  valid = r.valid;
  sound = r.sound;
  keeps = Keeps-trans a.keeps r.keeps;
  off = AgreeOff-trans (Added-off s t g h a) r.off;
  culprit = r.culprit;
  listed = ground (arith, r.listed);
  why = elim r.why [
    | inl gone ↦ inl (sym (a.keeps.alive r.culprit) ∙ gone)
    | inr leads ↦ inr ((Reach-off g h r.culprit (Added-off s t g h a)).1 leads)
  ];
}

module _ {V : Type 0} (now node : ℕ) (values : ℕ → Option V) where
  -- How a tracked run ends: with all nodes that it read as dependencies, or stopped.
  abbrev Tracks : Program V → Graph → Type 0
  Tracks p g =
      ((g' : Graph) × (tracked now node values p g ≡ some (untracked p values, g'))
        × AddedAll node (read_nodes p values) g g')
      ⊎ ((r : Thrown) × (g' : Graph) × (tracked now node values p g ≡ some (raised r, g'))
          × (is_std r ≡ true)
          × WasStopped node (read_nodes p values) g g')

  module _ (n : ℕ) (k : V → Program V) (g h : Graph) (there : g.alive n ≡ true)
      (e : add_observer now node n g ≡ ok tt h) (a : Added node n g h) where
    add_read : (ds : List ℕ) (g' : Graph) → AddedAll node ds h g' → AddedAll node (n ∷ ds) g g'
    add_read ds g' all =
        AddedAll-cons now node (add_observer_internal now node) (λ t k lt. refl) n ds g h g' a all

    no_value : values n ≡ none → Tracks (reads n k) g
    unfolding tracked untracked read_nodes
    no_value v = inl (
      h,
      rw (tracked, untracked, there, e, v),
      subst (λ ds. AddedAll node ds g h) (sym listed)
          (add_read [] h (AddedAll-nil node h a.valid a.sound)),
    )
      where
        listed : read_nodes (reads n k) values ≡ (n ∷ [])
        listed = rw (read_nodes, v)

    with_value : (v : V) → values n ≡ some v → Tracks (k v) h → Tracks (reads n k) g
    unfolding tracked untracked read_nodes
    with_value v s next = elim next [
      | inl (g', q, all) ↦ inl (
        g',
        goes_on ∙ q ∙ ap (λ o. some (o, g')) (sym same),
        subst (λ ds. AddedAll node ds g g') (sym listed)
            (add_read (read_nodes (k v) values) g' all),
      )
      | inr (r, g', q, std, stop) ↦ inr (
        r,
        g',
        goes_on ∙ q,
        std,
        subst (λ ds. WasStopped node ds g g') (sym listed)
            (WasStopped-after node n (read_nodes (k v) values) g h g' a stop),
      )
    ]
      where
        goes_on : tracked now node values (reads n k) g ≡ tracked now node values (k v) h
        goes_on = rw (tracked, there, e, s)

        same : untracked (reads n k) values ≡ untracked (k v) values
        same = rw (untracked, s)

        listed : read_nodes (reads n k) values ≡ (n ∷ read_nodes (k v) values)
        listed = rw (read_nodes, s)

    read : ((v : V) → Tracks (k v) h) → Tracks (reads n k) g
    read next = elim (Option-cases (values n)) [
      | inl v ↦ no_value v
      | inr (v, s) ↦ with_value v s (next v)
    ]

  tracked_lem :
      (p : Program V) (g : Graph)
      → IsWellFormed g
      → SoundFor node g
      → g.alive node ≡ true
      → Tracks p g
  unfolding tracked untracked read_nodes is_std mem
  tracked_lem (gives v) g w sound live = inl (g, refl, AddedAll-nil node g w sound)
  tracked_lem (throws r) g w sound live = inl (g, refl, AddedAll-nil node g w sound)
  tracked_lem (reads n k) g w sound live = elim (Bool-cases (g.alive n)) [
    | inr gone ↦ inr (
      expired,
      g,
      rw (tracked, gone),
      refl,
      record {
        valid = w;
        sound = sound;
        keeps = Keeps-refl g;
        off = record { off = λ x y o. refl; alive = λ u. refl };
        culprit = n;
        listed = head n _;
        why = inl gone;
      },
    )
    | inl there ↦ elim (add_observer_internal_lem now node n g w sound live there) [
      | inr (x, h, e, r) ↦ inr (
        reaction_error x,
        h,
        rw (tracked, there, add_observer_throws now node n g h x e),
        refl,
        record {
          valid = r.valid;
          sound = r.sound;
          keeps = r.same.keeps;
          off = AgreeOff-of_same node g h r.same;
          culprit = n;
          listed = head n _;
          why = inr r.closes;
        },
      )
      | inl (h, e, a) ↦
          read n k g (invalidate_caches h) there (add_observer_returns now node n g h e)
            (invalidated-Added node n g h a)
            (λ v.
              tracked_lem (k v) (invalidate_caches h) (invalidated-Added node n g h a).valid
                (invalidated-Added node n g h a).sound
                ((invalidated-Added node n g h a).keeps.alive node ∙ live))
    ]
  ]
    where
      head : (d : ℕ) (ds : List ℕ) → (nat_beq d d || mem d ds) ≡ true
      head d ds = ground (arith, nat_beq_iff d d)

-- Why a tracked run stopped, for the graph before the dependencies were removed.
reason_before :
    (node d : ℕ) (g h : Graph)
    → Replaced node [] g h
    → (h.alive d ≡ false) ⊎ Reach (Edge h) d node
    → (g.alive d ≡ false) ⊎ Reach (Edge g) d node
reason_before node d g h r why = elim why [
  | inl gone ↦ inl (sym (r.keeps.alive d) ∙ gone)
  | inr leads ↦ inr ((Reach-off g h d (Replaced-off node [] g h r)).1 leads)
]

-- The new dependencies, after those that were there have been removed.
Replaced-tracked :
    (node : ℕ) (ds : List ℕ) (g h k : Graph)
    → Replaced node [] g h
    → AddedAll node ds h k
    → Replaced node ds g k
unfolding mem
Replaced-tracked node ds g h k r a = record {
  valid = a.valid;
  sound = a.sound;
  keeps = Keeps-trans r.keeps a.keeps;
  allowed = λ t l p. a.allowed t l ((Reach-off g h t (Replaced-off node [] g h r)).0 p);
  deps = λ x y. ground (arith, a.deps x y, r.deps x y);
}

module _ {V : Type 0} (t : TypeInfo V) (now node : ℕ) (st : Store V) (w : IsWellFormed st.graph)
    (sound : SoundFor node st.graph) (live : st.graph.alive node ≡ true) (p : Program V)
    (tells : (a b : V) → differs t.ne a b ≡ false → a ≡ b) where
  -- The store when the function runs.
  abbrev moved : Store V
  moved = record st { fun = update st.fun node none }

  abbrev given : Graph → Store V
  given g = record moved { graph = g; fun = update moved.fun node (some (untracked p)) }

  ran_Ends :
      (h : Graph)
      → Replaced node [] st.graph h
      → Ends node st (read_nodes p st.value) (untracked p) (
          catch_source t now node st
            (store_tracked t node (given h) (tracked now node st.value p h)))
  unfolding store_tracked store_result
  ran_Ends h r =
      elim (tracked_lem now node st.value p h r.valid r.sound (r.keeps.alive node ∙ live)) [
        | inl (g, e, all) ↦
            subst
              (λ o.
                Ends node st (read_nodes p st.value) (untracked p)
                  (catch_source t now node st (store_tracked t node (given h) o)))
              (sym e)
              (evaluated_Ends t now node st w sound live (read_nodes p st.value) (untracked p) g
                (untracked p st.value) tells
                (Replaced-tracked node (read_nodes p st.value) st.graph h g r all) refl)
        | inr (x, g, e, std, stop) ↦
            subst
              (λ o.
                Ends node st (read_nodes p st.value) (untracked p)
                  (catch_source t now node st (store_tracked t node (given h) o)))
              (sym e)
              (caught t now node st w sound live (read_nodes p st.value) (untracked p) x
                (record (given h) { graph = g }) std stop.valid stop.sound
                (AgreeOff-trans (Replaced-off node [] st.graph h r) stop.off)
                (Keeps-trans r.keeps stop.keeps) (λ u. refl)
                (λ u a.
                  update_away moved.fun node u (some (untracked p)) a
                  ∙ update_away st.fun node u none a)
                (elim (reason_before node stop.culprit st.graph h r stop.why) [
                  | inl gone ↦ inl (stop.culprit, stop.listed, gone)
                  | inr leads ↦ inr (inl (stop.culprit, stop.listed, leads))
                ]))
      ]

  -- How the call ends, with the nodes that the function reads as arguments.
  pub set_tracked-Ends :
      is_node_in_active_batch st.graph node ≡ false
      → Ends node st (read_nodes p st.value) (untracked p) (set_tracked t now node p st)
  unfolding set_tracked try_tracked is_std mem targets
  set_tracked-Ends free =
      subst (Ends node st (read_nodes p st.value) (untracked p)) (sym (if_false free _ _))
        (elim (update_observers_transactional_lem now node st.graph w sound live []
          (λ u l. absurd (never l))) [
            | inl (h, e, r) ↦
                subst
                  (λ o.
                    Ends node st (read_nodes p st.value) (untracked p)
                      (catch_source t now node st (try_tracked t now node p moved o)))
                  (sym e) (ran_Ends h r)
            | inr (x, h, e, r) ↦
                subst
                  (λ o.
                    Ends node st (read_nodes p st.value) (untracked p)
                      (catch_source t now node st (try_tracked t now node p moved o)))
                  (sym e)
                  (caught t now node st w sound live (read_nodes p st.value) (untracked p)
                    (reaction_error x) (record moved { graph = h }) refl r.valid r.sound
                    (AgreeOff-of_same node st.graph h r.same) r.same.keeps (λ u. refl)
                    (λ u a. update_away st.fun node u none a) (absurd (never r.listed)))
          ])
    where
      never : false ≡ true → ⊥
      never e = cc
