-- ===== src/Graph/Collect/Visit.antt =====
-- One level of `collectObservers` (observer_graph.h): the loop over the immediate observers.
use reaction.Prelude.{
  ℕ, max, ◌≡◌, refl, sym, ap, ◌∙◌, inl, inr, Bool, true, false, ◌||◌, Option, none, some, [], ◌∷◌,
  if◌then◌else◌, nat_eq, nat_beq, nat_beq_iff, mem, insert, mem-insert, arith, Bool-cases,
  Option-cases, if_true, if_false,
}
use reaction.Cache.{get_cached_value, cache_value}
use reaction.Cache.Laws.{
  peek, IsValid, get_cached_value_lem, get_cached_value-IsValid, cache_value_lem,
}
use reaction.Graph.Caches.{
  GraphTraversalCache, get_cached_immediate_observers, cache_immediate_observers,
}
use reaction.Graph.State.{Graph, NodeSet, update}
use reaction.Graph.Collect.{
  update_depth, visit_observers, visit_found, store_observers, immediate_observers,
}

-- The graph with other depths and another cache of observers.
abbrev pub with_depth : Graph → (ℕ → ℕ) → GraphTraversalCache → Graph
with_depth g depth cache = record g { depth = depth; graph_cache = cache }

-- The depths after a visit of the nodes of `obs` at depth `d`.
unfoldable pub deepen : ℕ → NodeSet → (ℕ → ℕ) → ℕ → ℕ
unfolding update
deepen d [] depth = depth
deepen d (ob ∷ obs) depth = deepen d obs (update depth ob (max d (depth ob)))

pub insert_all : NodeSet → NodeSet → NodeSet
insert_all [] out = out
insert_all (ob ∷ obs) out = insert_all obs (insert ob out)

pub mem-insert_all :
    (u : ℕ) (obs out : NodeSet) → mem u (insert_all obs out) ≡ (mem u obs || mem u out)
unfolding insert_all mem
mem-insert_all u [] out = refl
mem-insert_all u (ob ∷ obs) out =
    ground (arith, mem-insert_all u obs (insert ob out), mem-insert u ob out)

module _ (d : ℕ) where
  pub deepen_lem :
      (obs : NodeSet) (depth : ℕ → ℕ) (u : ℕ)
      → deepen d obs depth u ≡ (if mem u obs then max d (depth u) else depth u)
  unfolding deepen mem
  deepen_lem [] depth u = refl
  deepen_lem (ob ∷ obs) depth u =
      unfold update in
      ground (
        arith,
        deepen_lem obs (update depth ob (max d (depth ob))) u,
        nat_beq_iff u ob,
        nat_beq_iff ob u,
      )

-- All observers of the graph are alive.
module _ (g : Graph) where
  visit_lem :
      (d : ℕ) (obs out cur : NodeSet) (depth : ℕ → ℕ) (cache : GraphTraversalCache)
      → ((u : ℕ) → mem u obs ≡ true → g.alive u ≡ true)
      → visit_observers d obs out cur (with_depth g depth cache)
        ≡ (insert_all obs out, insert_all obs cur, with_depth g (deepen d obs depth) cache)
  unfolding visit_observers update_depth insert_all deepen mem
  visit_lem d [] out cur depth cache live = refl
  visit_lem d (ob ∷ obs) out cur depth cache live = rw (live ob (rw ((nat_beq_iff ob ob).1 refl))) (
      visit_lem d obs (insert ob out) (insert ob cur) (update depth ob (max d (depth ob))) cache
        (λ u h. live u (later u h)))
    where
      later : (u : ℕ) → mem u obs ≡ true → (nat_beq u ob || mem u obs) ≡ true
      later u h = ground arith

-- Every cached entry lists the observers of its node.
pub record IsCacheRight (g : Graph) (cache : GraphTraversalCache) : Type 0 where
  pub valid : IsValid cache
  pub right :
      (n : ℕ) (cur : NodeSet)
      → peek n cache ≡ some cur
      → (u : ℕ) → mem u cur ≡ mem u (g.observers n)

-- A node with observers is in the graph, and all observers are alive.
pub record IsObserved (g : Graph) : Type 0 where
  pub live : (n u : ℕ) → mem u (g.observers n) ≡ true → g.alive u ≡ true
  pub listed : (n u : ℕ) → mem u (g.observers n) ≡ true → mem n g.observer_list ≡ true

module _ (g : Graph) (now : ℕ) where
  looked_up-IsCacheRight :
      (node : ℕ) (cache : GraphTraversalCache)
      → IsCacheRight g cache
      → IsCacheRight g (get_cached_value now node cache).1
  looked_up-IsCacheRight node cache c = record {
    valid = get_cached_value-IsValid now node cache c.valid;
    right = λ n cur e. c.right n cur (sym (get_cached_value_lem now node n cache).1 ∙ e);
  }

  stored-IsCacheRight :
      (node : ℕ) (obs : NodeSet) (cache : GraphTraversalCache)
      → IsCacheRight g cache
      → ((u : ℕ) → mem u obs ≡ mem u (g.observers node))
      → IsCacheRight g (cache_value now node obs cache)
  stored-IsCacheRight node obs cache c same = record {
    valid = (cache_value_lem now node obs 0 cache c.valid).0;
    right = λ n cur e. elim (cache_value_lem now node obs n cache c.valid).1 [
      | inl gone ↦ absurd (missing (sym gone ∙ e))
      | inr found ↦ elim (Bool-cases (nat_beq node n)) [
        | inl here ↦ λ u.
            ap (λ s. mem u s) (sym (same_set (sym (sym e ∙ found ∙ if_true here _ _))))
            ∙ same u
            ∙ ap (λ m. mem u (g.observers m)) ((nat_beq_iff node n).0 here)
        | inr other ↦ c.right n cur (sym (if_false other _ _) ∙ sym found ∙ e)
      ]
    ];
  }
    where
      missing : {A : Type 0} {a : A} → none ≡ some a → ⊥
      missing e = cc

      same_set : {s t : NodeSet} → some s ≡ some t → s ≡ t
      same_set e = cc

  -- What the part of `collectObservers` under the lock does for one node.
  pub record Visited (node d : ℕ) (out : NodeSet) (depth : ℕ → ℕ) (cache : GraphTraversalCache)
      : Type 0 where
    pub obs : NodeSet
    pub current : NodeSet
    pub cache' : GraphTraversalCache
    pub result :
        immediate_observers now node out d (with_depth g depth cache)
        ≡ (insert_all obs out, current, with_depth g (deepen d obs depth) cache')
    pub obs_mem : (u : ℕ) → mem u obs ≡ mem u (g.observers node)
    pub current_mem : (u : ℕ) → mem u current ≡ mem u (g.observers node)
    pub right : IsCacheRight g cache'

  module _ (seen : IsObserved g) (node d : ℕ) (out : NodeSet) (depth : ℕ → ℕ)
      (cache : GraphTraversalCache) (c : IsCacheRight g cache) where
    found_at :
        (o : Option NodeSet)
        → peek node cache ≡ o
        → immediate_observers now node out d (with_depth g depth cache)
          ≡ visit_found now node out d o (with_depth g depth (get_cached_value now node cache).1)
    unfolding immediate_observers get_cached_immediate_observers
    found_at o e =
        ap
          (λ (p : Option NodeSet).
            visit_found now node out d p (with_depth g depth (get_cached_value now node cache).1))
          ((get_cached_value_lem now node node cache).0 ∙ e)

    hit_Visited : (cur : NodeSet) → peek node cache ≡ some cur → Visited node d out depth cache
    unfolding visit_found
    hit_Visited cur hit =
        let cache1 = (get_cached_value now node cache).1 in
        record {
          obs = cur;
          current = cur;
          cache' = cache1;
          result =
              found_at (some cur) hit
              ∙ ap (λ (r : NodeSet × NodeSet × Graph). (r.0, cur, r.2))
                  (visit_lem g d cur out [] depth cache1
                    (λ u h. seen.live node u (sym (c.right node cur hit u) ∙ h)));
          obs_mem = c.right node cur hit;
          current_mem = c.right node cur hit;
          right = looked_up-IsCacheRight node cache c;
        }

    miss_Visited :
        peek node cache ≡ none → mem node g.observer_list ≡ true → Visited node d out depth cache
    unfolding visit_found store_observers cache_immediate_observers mem
    miss_Visited miss there =
        let cache1 = (get_cached_value now node cache).1 in
        let obs = g.observers node in
        let all = λ (u : ℕ). mem-insert_all u obs [] ∙ or_false (mem u obs) in
        record {
          obs = obs;
          current = insert_all obs [];
          cache' = cache_value now node (insert_all obs []) cache1;
          result =
              found_at none miss
              ∙ if_true there _ _
              ∙ ap (store_observers now node)
                  (visit_lem g d obs out [] depth cache1 (λ u h. seen.live node u h));
          obs_mem = λ u. refl;
          current_mem = all;
          right =
              stored-IsCacheRight node (insert_all obs []) cache1
                (looked_up-IsCacheRight node cache c) all;
        }
      where
        or_false : (b : Bool) → (b || false) ≡ b
        or_false b = ground arith

    unknown_Visited :
        peek node cache ≡ none → mem node g.observer_list ≡ false → Visited node d out depth cache
    unfolding visit_found insert_all deepen mem
    unknown_Visited miss absent = record {
      obs = [];
      current = [];
      cache' = (get_cached_value now node cache).1;
      result = found_at none miss ∙ if_false absent _ _;
      obs_mem = λ u. ground (arith, seen.listed node u, absent);
      current_mem = λ u. ground (arith, seen.listed node u, absent);
      right = looked_up-IsCacheRight node cache c;
    }

    pub immediate_lem : Visited node d out depth cache
    immediate_lem = elim (Option-cases (peek node cache)) [
      | inr (cur, hit) ↦ hit_Visited cur hit
      | inl miss ↦ elim (Bool-cases (mem node g.observer_list)) [
        | inl there ↦ miss_Visited miss there
        | inr absent ↦ unknown_Visited miss absent
      ]
    ]
