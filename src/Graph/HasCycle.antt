-- ===== src/Graph/HasCycle.antt =====
-- What `ObserverGraph::hasCycle` answers, and what it leaves behind (observer_graph.h).
use reaction.Prelude.{
  ℕ, ◌≡◌, ◌↔◌, refl, sym, ap, ◌∙◌, inl, inr, Bool, true, some, nat_eq, pair_eq, mem, is_some,
  Option-cases,
}
use mathlib.Core.Bool.{true≢false}
use reaction.Prelude.Walks.{Reach}
use reaction.Cache
use reaction.Exception.{ok}
use reaction.Graph.Caches.{get_cached_cycle_result}
use reaction.Graph.State.{Graph, contains}
use reaction.Graph.Edges.{Edge}
use reaction.Graph.Invariant.{IsWellFormed}
use reaction.Graph.Search.{has_cycle}
use reaction.Graph.SearchCycle.{cached_cycle, Answered, search_cycle_lem}

-- The cached answers for a source are right.
abbrev pub SoundFor : ℕ → Graph → Type 0
SoundFor s g = (t : ℕ) (b : Bool) → cached_cycle g s t ≡ some b → (b ≡ true) ↔ Reach (Edge g) t s

looked_up : ℕ → ℕ → ℕ → Graph → Graph
looked_up now s t g = record g { cycle_cache = (get_cached_cycle_result now s t g.cycle_cache).1 }

module _ (now s t : ℕ) (g : Graph) (w : IsWellFormed g) where
  lookup_answer : (get_cached_cycle_result now s t g.cycle_cache).0 ≡ cached_cycle g s t
  unfolding get_cached_cycle_result
  lookup_answer = (Cache.Laws.get_cached_value_lem now (s, t) (s, t) g.cycle_cache).0

  lookup_keeps : (x y : ℕ) → cached_cycle (looked_up now s t g) x y ≡ cached_cycle g x y
  unfolding looked_up get_cached_cycle_result
  lookup_keeps x y = (Cache.Laws.get_cached_value_lem now (s, t) (x, y) g.cycle_cache).1

  looked_up-IsWellFormed : IsWellFormed (looked_up now s t g)
  unfolding looked_up get_cached_cycle_result
  looked_up-IsWellFormed = record {
    symmetric = w.symmetric;
    same_keys = w.same_keys;
    known = w.known;
    owned = w.owned;
    acyclic = w.acyclic;
    cycle_cache_valid =
        Cache.Laws.get_cached_value-IsValid now (s, t) g.cycle_cache w.cycle_cache_valid;
  }

  looked_up-Answered :
      (b : Bool)
      → cached_cycle g s t ≡ some b
      → ((b ≡ true) ↔ Reach (Edge g) t s)
      → Answered s t g b (looked_up now s t g)
  looked_up-Answered b hit right = record {
    valid = looked_up-IsWellFormed;
    keeps =
        unfold looked_up in
        record {
          alive = λ n. refl;
          depth = λ n. refl;
          name_list = refl;
          active_batch_nodes = refl;
          active_batch_ids = refl;
        };
    keys = λ n. unfold looked_up in refl;
    fewer = λ x y h. unfold looked_up in h;
    rest = λ x y other. unfold looked_up in refl;
    tried = λ miss. absurd (true≢false (ap is_some (sym hit ∙ miss)));
    exact = right;
    remembers = λ x y v h. inl (sym (lookup_keeps x y) ∙ h);
  }

  -- A search on the graph after a lookup is one on the graph.
  Answered-after_lookup :
      (b : Bool) (g' : Graph) → Answered s t (looked_up now s t g) b g' → Answered s t g b g'
  Answered-after_lookup b g' a = record {
    valid = a.valid;
    keeps =
        unfold looked_up in
        record {
          alive = a.keeps.alive;
          depth = a.keeps.depth;
          name_list = a.keeps.name_list;
          active_batch_nodes = a.keeps.active_batch_nodes;
          active_batch_ids = a.keeps.active_batch_ids;
        };
    keys = unfold looked_up in a.keys;
    fewer = unfold looked_up in a.fewer;
    rest = unfold looked_up in a.rest;
    tried = λ miss. a.tried (lookup_keeps s t ∙ miss);
    exact = unfold looked_up in a.exact;
    remembers = λ x y v h. elim (a.remembers x y v h) [
      | inl old ↦ inl (sym (lookup_keeps x y) ∙ old)
      | inr new ↦ inr new
    ];
  }

  -- In a well-formed graph that knows both nodes, and where the cached answers for the source
  -- are right, `hasCycle` ends, and answers true exactly if the source can be reached from the
  -- target along dependencies. Every other edge than the one it tried is kept; after a search that
  -- one is not there, even if it was before.
  pub has_cycle_lem :
      contains g s ≡ true
      → contains g t ≡ true
      → SoundFor s g
      → (b : Bool) × (g' : Graph) × (has_cycle now s t g ≡ ok b g') × Answered s t g b g'
  unfolding has_cycle
  has_cycle_lem ks kt sound = elim (Option-cases (cached_cycle g s t)) [
    | inl miss ↦
        let (b, g', e, a) =
          search_cycle_lem s t (looked_up now s t g) looked_up-IsWellFormed (unfold looked_up in ks)
            (unfold looked_up in kt) now in
        (
          b,
          g',
          rw (ks, w.same_keys t ∙ kt, lookup_answer ∙ miss) (unfold looked_up in e),
          Answered-after_lookup b g' a,
        )
    | inr (b, hit) ↦ (
      b,
      looked_up now s t g,
      rw (ks, w.same_keys t ∙ kt, lookup_answer ∙ hit) (unfold looked_up in refl),
      looked_up-Answered b hit (sound t b hit),
    )
  ]

-- On a hit `hasCycle` answers what the cache says, and no edge or node changes.
pub has_cycle_hit :
    (now s t : ℕ) (g : Graph) (b : Bool)
    → contains g s ≡ true
    → mem t g.observer_list ≡ true
    → cached_cycle g s t ≡ some b
    → (g' : Graph) × (has_cycle now s t g ≡ ok b g')
      × (g'.dependent_list ≡ g.dependent_list)
      × (g'.alive ≡ g.alive)
unfolding has_cycle get_cached_cycle_result
has_cycle_hit now s t g b ks kt hit =
    let answers = (Cache.Laws.get_cached_value_lem now (s, t) (s, t) g.cycle_cache).0 in
    (
      record g { cycle_cache = (Cache.get_cached_value now (s, t) g.cycle_cache).1 },
      rw (ks, kt, answers ∙ hit),
      refl,
      refl,
    )
