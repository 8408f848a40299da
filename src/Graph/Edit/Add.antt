-- ===== src/Graph/Edit/Add.antt =====
-- `addObserverInternal` and `addObserver` of observer_graph.h: an edge is added exactly if it
-- closes no cycle, and otherwise the edges stay as they were.
use reaction.Prelude.{
  ℕ, ◌≡◌, ◌↔◌, refl, sym, ap, ◌∙◌, ◌⊎◌, inl, inr, Bool, true, false, ◌||◌, ◌&&◌, some, nat_eq,
  pair_eq, nat_beq, nat_beq_iff, mem, find, get_or, if◌then◌else◌, arith, Bool-cases,
}
use mathlib.Core.Path.{subst}
use reaction.Prelude.Walks.{
  Reach, here, Reach-map, Walk-of_edge, Grounded-not-Walk, Reach-to, Grounded-new_edge,
}
use reaction.Cache
use reaction.Exception.{
  ok, throw, ReactionException, self_observation_exception, dependency_cycle_exception,
}
use reaction.Graph.State.{Graph, ◌>>=◌, contains, dependents, link, add_missing, get_name}
use reaction.Graph.Edges.{Edge, mem-link, Edge-link}
use reaction.Graph.Invariant.{
  IsWellFormed, Keeps, Keeps-trans, SameEdges, SameEdges-refl, link-IsWellFormed, Prepared,
  add_missing-Prepared,
}
use reaction.Graph.Search.{has_cycle}
use reaction.Graph.HasCycle.{SoundFor, has_cycle_lem}
use reaction.Graph.SearchCycle.{cached_cycle, Answered}
use reaction.Graph.Edit.{commit, add_edge, add_observer_internal}

-- The graphs agree on every edge that does not leave `s`.
pub record AgreeOff (s : ℕ) (g g' : Graph) : Type 0 where
  pub off : (x y : ℕ) → nat_beq s x ≡ false → mem y (dependents g' x) ≡ mem y (dependents g x)
  pub alive : (n : ℕ) → g'.alive n ≡ g.alive n

pub AgreeOff-of_same : (s : ℕ) (g g' : Graph) → SameEdges g g' → AgreeOff s g g'
AgreeOff-of_same s g g' e = record { off = λ x y _. e.deps x y; alive = e.keeps.alive }

pub AgreeOff-trans : {s : ℕ} {g h k : Graph} → AgreeOff s g h → AgreeOff s h k → AgreeOff s g k
AgreeOff-trans p q = record {
  off = λ x y o. q.off x y o ∙ p.off x y o;
  alive = λ n. q.alive n ∙ p.alive n;
}

-- Which nodes lead to `s` does not turn on the edges that leave `s`.
pub Reach-off :
    {s : ℕ} (g g' : Graph) (a : ℕ) → AgreeOff s g g' → Reach (Edge g) a s ↔ Reach (Edge g') a s
Reach-off g g' a p = (
  Reach-to λ x y o e. (p.off x y o ∙ e.0, p.alive y ∙ e.1),
  Reach-to λ x y o e. (sym (p.off x y o) ∙ e.0, sym (p.alive y) ∙ e.1),
)

-- The right answers for `s` stay right, and the answers learnt in between are right.
pub SoundFor-off :
    (s : ℕ) (g g' : Graph)
    → AgreeOff s g g'
    → SoundFor s g
    → ((u : ℕ) (v : Bool)
        → cached_cycle g' s u ≡ some v
        → (cached_cycle g s u ≡ some v) ⊎ ((v ≡ true) ↔ Reach (Edge g) u s))
    → SoundFor s g'
SoundFor-off s g g' p sound learnt u v h =
    let iff = Reach-off g g' u p in
    let right : (v ≡ true) ↔ Reach (Edge g) u s = elim (learnt u v h) [
      | inl old ↦ sound u v old
      | inr new ↦ new
    ] in
    (λ e. iff.0 (right.0 e), λ r. right.1 (iff.1 r))

-- The edge was added, and no other changed.
pub record Added (s t : ℕ) (g g' : Graph) : Type 0 where
  pub valid : IsWellFormed g'
  pub sound : SoundFor s g'
  pub keeps : Keeps g g'
  pub allowed : ¬ Reach (Edge g) t s
  pub deps :
      (x y : ℕ) → mem y (dependents g' x) ≡ (nat_beq s x && nat_beq t y || mem y (dependents g x))

-- The exception with which an edge is refused.
abbrev pub refusal : Graph → ℕ → ℕ → ReactionException
refusal g s t =
    if nat_beq s t
    then self_observation_exception (get_name g s)
    else dependency_cycle_exception (get_name g s) (get_name g t)

-- The edge was refused with an exception, and all edges are as before.
pub record Refused (s t : ℕ) (g : Graph) (e : ReactionException) (g' : Graph) : Type 0 where
  pub valid : IsWellFormed g'
  pub sound : SoundFor s g'
  pub same : SameEdges g g'
  pub closes : Reach (Edge g) t s
  pub exception : e ≡ refusal g s t
  pub others :
      (u v : ℕ) (b : Bool)
      → nat_beq s u ≡ false
      → cached_cycle g' u v ≡ some b
      → cached_cycle g u v ≡ some b

pub get_name-Keeps : (g h : Graph) (n : ℕ) → Keeps g h → get_name h n ≡ get_name g n
unfolding get_name
get_name-Keeps g h n k = ap (λ l. get_or (find n l) "") k.name_list

pub Added-off : (s t : ℕ) (g g' : Graph) → Added s t g g' → AgreeOff s g g'
Added-off s t g g' a = record { off = λ x y o. ground (arith, a.deps x y); alive = a.keeps.alive }

module _ (now s t : ℕ) (g : Graph) (w : IsWellFormed g) (sound : SoundFor s g)
    (ls : g.alive s ≡ true) (lt : g.alive t ≡ true) where
  abbrev ready : Graph
  ready = add_missing s t g

  prepared : Prepared s t g ready
  prepared = add_missing-Prepared s t g w ls lt

  ready_sound : SoundFor s ready
  ready_sound =
      SoundFor-off s g ready (AgreeOff-of_same s g ready prepared.same) sound
        (λ u v h. inl (subst (λ c. Cache.Laws.peek (s, u) c ≡ some v) prepared.cycle_cache h))

  ready-Reach : Reach (Edge g) t s ↔ Reach (Edge ready) t s
  ready-Reach = Reach-off g ready t (AgreeOff-of_same s g ready prepared.same)

  target_known : contains ready t ≡ true
  target_known = sym (prepared.valid.same_keys t) ∙ prepared.target_here

  module _ (b : Bool) (h : Graph) (a : Answered s t ready b h) where
    asked_off : AgreeOff s g h
    asked_off =
        AgreeOff-trans (AgreeOff-of_same s g ready prepared.same)
          (record { off = λ x y o. a.rest x y (ground arith); alive = a.keeps.alive })

    asked_sound : SoundFor s h
    asked_sound = SoundFor-off s g h asked_off sound λ u v c. elim (a.remembers s u v c) [
      | inl old ↦ inl (subst (λ k. Cache.Laws.peek (s, u) k ≡ some v) prepared.cycle_cache old)
      | inr (_, u≡t, v≡b) ↦
          inr (rw (u≡t, v≡b) (λ e. ready-Reach.1 (a.exact.0 e), λ r. a.exact.1 (ready-Reach.0 r)))
    ]

    asked_source : contains h s ≡ true
    asked_source = a.keys s ∙ prepared.source_here

    asked_target : contains h t ≡ true
    asked_target = a.keys t ∙ target_known

    asked-Keeps : Keeps g h
    asked-Keeps = Keeps-trans prepared.same.keeps a.keeps

    link-Added : b ≡ false → Added s t g (link s t h)
    link-Added no_cycle =
        let away : ¬ Reach (Edge ready) t s = λ r. ground (arith, a.exact.1 r) in
        let away_h : ¬ Reach (Edge h) t s =
          λ r. away (Reach-map (λ x y e. (a.fewer x y e.0, sym (a.keeps.alive y) ∙ e.1)) r) in
        record {
          valid = link-IsWellFormed s t h a.valid asked_source asked_target (
              Grounded-new_edge s t (Edge-link s t h) (a.valid.acyclic s) (a.valid.acyclic t)
                away_h);
          sound =
              SoundFor-off s h (link s t h)
                (record {
                  off = λ x y o. ground (arith, mem-link s t h x y);
                  alive = λ n. unfold link in refl;
                })
                asked_sound (λ u v c. inl (unfold link in c));
          keeps =
              unfold link in
              record {
                alive = asked-Keeps.alive;
                depth = asked-Keeps.depth;
                name_list = asked-Keeps.name_list;
                active_batch_nodes = asked-Keeps.active_batch_nodes;
                active_batch_ids = asked-Keeps.active_batch_ids;
              };
          allowed = λ r. away (ready-Reach.0 r);
          deps = λ x y. ground (arith, mem-link s t h x y, a.rest x y, prepared.same.deps x y);
        }

    -- The edge that closes a cycle was not there before.
    no_such_edge : b ≡ true → mem t (dependents ready s) ≡ false
    no_such_edge closes = elim (Bool-cases (mem t (dependents ready s))) [
      | inl there ↦ absurd (
          Grounded-not-Walk (prepared.valid.acyclic s)
            (Walk-of_edge (there, prepared.valid.owned t target_known) (a.exact.0 closes)))
      | inr absent ↦ absent
    ]

    asked_same : b ≡ true → SameEdges g h
    asked_same closes = record {
      keeps = asked-Keeps;
      deps = λ x y. ground (
        arith,
        a.rest x y,
        a.fewer x y,
        no_such_edge closes,
        prepared.same.deps x y,
        nat_beq_iff s x,
        nat_beq_iff t y,
      );
    }

    asked-Refused :
        b ≡ true
        → nat_beq s t ≡ false
        → Refused s t g (dependency_cycle_exception (get_name h s) (get_name h t)) h
    asked-Refused closes other = record {
      valid = a.valid;
      sound = asked_sound;
      same = asked_same closes;
      closes = ready-Reach.1 (a.exact.0 closes);
      exception = rw (other, get_name-Keeps g h s asked-Keeps, get_name-Keeps g h t asked-Keeps);
      others = λ u v c o known. elim (a.remembers u v c known) [
        | inl old ↦ subst (λ k. Cache.Laws.peek (u, v) k ≡ some c) prepared.cycle_cache old
        | inr (u≡s, _, _) ↦ absurd (ground (arith, nat_beq_iff s u))
      ];
    }

  add_edge_answered :
      (finish : Graph → Graph) (b : Bool) (h : Graph)
      → nat_beq s t ≡ false
      → has_cycle now s t ready ≡ ok b h
      → add_edge finish now s t g ≡ commit finish s t b h
  unfolding add_edge
  add_edge_answered finish b h other e = rw (other, ◌>>=◌, e)

  -- `addObserverInternal` on a well-formed graph, where the cached answers for the source are
  -- right and both nodes are alive. It returns exactly if the source cannot be reached from the
  -- target along dependencies; then the edge, and no other, is new, and the graph is well-formed.
  -- Else it throws self observation or dependency cycle, with the edges as they were.
  pub add_observer_internal_lem :
      ((g' : Graph) × (add_observer_internal now s t g ≡ ok tt g') × Added s t g g')
      ⊎ ((e : ReactionException) × (g' : Graph) × (add_observer_internal now s t g ≡ throw e g')
          × Refused s t g e g')
  unfolding add_observer_internal add_edge commit
  add_observer_internal_lem = elim (Bool-cases (nat_beq s t)) [
    | inl self ↦ inr (
      self_observation_exception (get_name g s),
      g,
      rw self,
      record {
        valid = w;
        sound = sound;
        same = SameEdges-refl g;
        closes = subst (λ x. Reach (Edge g) t x) (sym ((nat_beq_iff s t).0 self)) here;
        exception = rw self;
        others = λ u v b o known. known;
      },
    )
    | inr other ↦
        let (b, h, e, a) =
          has_cycle_lem now s t ready prepared.valid prepared.source_here target_known
            ready_sound in
        elim (Bool-cases b) [
          | inl closes ↦ inr (
            dependency_cycle_exception (get_name h s) (get_name h t),
            h,
            add_edge_answered (λ k. k) b h other e ∙ rw closes,
            asked-Refused b h a closes other,
          )
          | inr fine ↦
              inl (
                link s t h,
                add_edge_answered (λ k. k) b h other e ∙ rw fine,
                link-Added b h a fine,
              )
        ]
  ]
