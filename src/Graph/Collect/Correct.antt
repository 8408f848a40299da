-- ===== src/Graph/Collect/Correct.antt =====
-- What `collectObservers` (observer_graph.h) collects, and the depths that it leaves.
use reaction.Prelude.{
  ℕ, zero, suc, ◌+◌, ◌^◌, ◌%◌, ◌≤◌, ◌<◌, ◌≡◌, refl, sym, ap, ◌∙◌, ◌⊎◌, inl, inr, Bool, true, false,
  ◌||◌, [], ◌∷◌, nat_beq, nat_beq_iff, mem, arith, Bool-cases,
}
use mathlib.Core.Path.{subst}
use mathlib.Core.Bool.{true≢false}
use reaction.Prelude.Walks.{Walk, one, more}
use reaction.Graph.Caches.{GraphTraversalCache}
use reaction.Graph.State.{Graph, NodeSet}
use reaction.Graph.Collect.{Collected, collect_each, collect_observers}
use reaction.Graph.Collect.Visit.{
  IsCacheRight, IsObserved, Visited, immediate_lem, with_depth, deepen, insert_all, mem-insert_all,
}
use reaction.Graph.Collect.Depths.{
  Observes, Above, Gathered, collect_step, Above-keeps, Deepened-trans, Deepened-refl, Within,
  Within-keeps, deepen-grows, deepen-reaches, deepen-away, deepen-Within,
}

module _ (g : Graph) where
  module _ (now : ℕ) (seen : IsObserved g) (rank : ℕ → ℕ)
      (falls : (n o : ℕ) → Observes g n o → rank o < rank n) where
    abbrev Rec : Type 0
    Rec = ℕ → NodeSet → Graph → Collected

    -- The promise of a call for a node at depth `d`, for ranks below the bound.
    abbrev Collects : (ℕ → ℕ → NodeSet → Graph → Collected) → ℕ → Type 0
    Collects call bound =
        (n d : ℕ) (out : NodeSet) (depth : ℕ → ℕ) (cache : GraphTraversalCache)
        → IsCacheRight g cache
        → rank n < bound
        → rank n + d < 2 ^ 16
        → Within g d depth
        → Above g depth n ⊎ (depth n < d)
        → Gathered g (call n d out (with_depth g depth cache)) (Walk (Observes g) n) (λ u. u ≡ n)
            out depth

    -- The nodes below one of `cur`, and these themselves.
    abbrev BelowAny : NodeSet → ℕ → Type 0
    BelowAny cur u = (v : ℕ) × (mem v cur ≡ true) × Walk (Observes g) v u

    each_lem :
        (call : ℕ → ℕ → NodeSet → Graph → Collected) (bound d d' : ℕ) (cur : NodeSet)
        (out : NodeSet) (depth : ℕ → ℕ) (cache : GraphTraversalCache)
        → Collects call bound
        → IsCacheRight g cache
        → ((v : ℕ)
            → mem v cur ≡ true
            → (g.alive v ≡ true) × (rank v < bound) × (rank v + d' < 2 ^ 16) × (d' ≡ suc d))
        → Within g d depth
        → Gathered g
            (collect_each (λ ob o h. call ob d' o h) cur out (with_depth g depth cache))
            (BelowAny cur)
            (λ u. mem u cur ≡ true)
            out
            depth
    unfolding collect_each mem
    each_lem call bound d d' [] out depth cache rec right fits w = record {
      out' = out;
      depth' = depth;
      cache' = cache;
      result = refl;
      right = right;
      deepened = Deepened-refl g depth;
      above = λ u m. absurd (true≢false (sym m));
      sound = λ u m. inl m;
      complete = λ u. elim [ inl m ↦ m | inr (v, m, _) ↦ absurd (true≢false (sym m)) ];
    }
    each_lem call bound d d' (v ∷ vs) out depth cache rec right fits w =
        let (live, below, small, next) = fits v (first v vs) in
        let a = rec v d' out depth cache right below small (wider next w) (entry next (w v)) in
        let b =
          each_lem call bound d d' vs a.out' a.depth' a.cache' rec a.right
            (λ u m. fits u (later u v vs m)) (Within-keeps g d depth a.depth' a.deepened w) in
        record {
          out' = b.out';
          depth' = b.depth';
          cache' = b.cache';
          result =
              collect_step (λ ob o h. call ob d' o h) v vs out a.out' (with_depth g depth cache)
                (with_depth g a.depth' a.cache') live a.result
              ∙ b.result;
          right = b.right;
          deepened = Deepened-trans g depth a.depth' b.depth' a.deepened b.deepened;
          above = λ u m. elim (Bool-cases (nat_beq u v)) [
            | inl same ↦
                Above-keeps g a.depth' b.depth' u b.deepened (a.above u ((nat_beq_iff u v).0 same))
            | inr other ↦ b.above u (rest other m)
          ];
          sound = λ u m. elim (b.sound u m) [
            | inr (x, inside, walk) ↦ inr (x, later x v vs inside, walk)
            | inl old ↦ elim (a.sound u old) [
              | inl older ↦ inl older
              | inr walk ↦ inr (v, first v vs, walk)
            ]
          ];
          complete = λ u. elim [
            | inl old ↦ b.complete u (inl (a.complete u (inl old)))
            | inr (x, inside, walk) ↦ elim (Bool-cases (nat_beq x v)) [
              | inl same ↦ b.complete u (
                  inl (
                    a.complete u
                      (inr (subst (λ y. Walk (Observes g) y u) ((nat_beq_iff x v).0 same) walk))))
              | inr other ↦ b.complete u (inr (x, rest other inside, walk))
            ]
          ];
        }
      where
        first : (v : ℕ) (vs : NodeSet) → (nat_beq v v || mem v vs) ≡ true
        first v vs = rw ((nat_beq_iff v v).1 refl)

        later : (u v : ℕ) (vs : NodeSet) → mem u vs ≡ true → (nat_beq u v || mem u vs) ≡ true
        later u v vs h = ground arith

        rest : {b c : Bool} → b ≡ false → (b || c) ≡ true → c ≡ true
        rest e h = ground arith

        wider : {d d' : ℕ} {depth : ℕ → ℕ} → d' ≡ suc d → Within g d depth → Within g d' depth
        wider e w u = elim (w u) [ inl r ↦ inl r | inr h ↦ inr (omega (arith, e, h)) ]

        entry : {P : Type 0} {d d' a : ℕ} → d' ≡ suc d → P ⊎ (a ≤ d) → P ⊎ (a < d')
        entry e (inl p) = inl p
        entry e (inr h) = inr (omega (arith, e, h))

    -- One level, given the level below.
    level_lem :
        (call : ℕ → ℕ → NodeSet → Graph → Collected) (bound n d : ℕ) (out : NodeSet) (depth : ℕ → ℕ)
        (cache : GraphTraversalCache)
        → Collects call bound
        → (p : Visited g now n d out depth cache) → rank n < suc bound
        → rank n + d < 2 ^ 16
        → Within g d depth
        → Above g depth n ⊎ (depth n < d)
        → Gathered g
            (collect_each
              (λ ob o h. call ob ((d + 1) % 2 ^ 16) o h)
              p.current
              (insert_all p.obs out)
              (with_depth g (deepen d p.obs depth) p.cache'))
            (Walk (Observes g) n)
            (λ u. u ≡ n)
            out
            depth
    level_lem call bound n d out depth cache rec p below small w start =
        let depth1 = deepen d p.obs depth in
        let b =
          each_lem call bound d ((d + 1) % 2 ^ 16) p.current (insert_all p.obs out) depth1 p.cache'
            rec p.right
            (λ v m.
              let o = sym (p.current_mem v) ∙ m in
              (
                seen.live n v o,
                under (falls n v o) below,
                fits d (falls n v o) small,
                next d (falls n v o) small,
              ))
            (deepen-Within g d p.obs depth w) in
        let here : depth1 n ≡ depth n =
          deepen-away g d p.obs depth n (p.obs_mem n ∙ not_itself n) in
        record {
          out' = b.out';
          depth' = b.depth';
          cache' = b.cache';
          result = b.result;
          right = b.right;
          deepened = record {
            grows = λ u. omega (arith, deepen-grows g d p.obs depth u, b.deepened.grows u);
            touched = λ u. elim (b.deepened.touched u) [
              | inl right ↦ inl right
              | inr same ↦ elim (Bool-cases (mem u p.current)) [
                | inl inside ↦ inl (b.above u inside)
                | inr away ↦ inr (
                    same
                    ∙ deepen-away g d p.obs depth u (p.obs_mem u ∙ sym (p.current_mem u) ∙ away))
              ]
            ];
          };
          above = λ u e.
              subst (λ y. Above g b.depth' y) (sym e)
                (elim (b.deepened.touched n) [
                  | inl right ↦ right
                  | inr same ↦ λ v o. elim start [
                    | inl above ↦
                        rises (same ∙ here) (above v o) (deepen-grows g d p.obs depth v)
                          (b.deepened.grows v)
                    | inr less ↦
                        rises (same ∙ here) less
                          (deepen-reaches g d p.obs depth v (p.obs_mem v ∙ o)) (b.deepened.grows v)
                  ]
                ]);
          sound = λ u m. elim (b.sound u m) [
            | inr (v, inside, walk) ↦ inr (more (sym (p.current_mem v) ∙ inside) walk)
            | inl old ↦ elim (Bool-cases (mem u p.obs)) [
              | inl now_in ↦ inr (one (sym (p.obs_mem u) ∙ now_in))
              | inr away ↦ inl (before away (sym (mem-insert_all u p.obs out) ∙ old))
            ]
          ];
          complete = λ u. elim [
            | inl old ↦ b.complete u (inl (mem-insert_all u p.obs out ∙ with_old _ _ old))
            | inr (one o) ↦
                b.complete u (inl (mem-insert_all u p.obs out ∙ with_new _ _ (p.obs_mem u ∙ o)))
            | inr (more {b = v} o walk) ↦ b.complete u (inr (v, p.current_mem v ∙ o, walk))
          ];
        }
      where
        under : {a b c : ℕ} → a < b → b < suc c → a < c
        under h k = omega arith

        fits : {a b : ℕ} (d : ℕ) → a < b → b + d < 2 ^ 16 → a + ((d + 1) % 2 ^ 16) < 2 ^ 16
        fits d h k = omega arith

        next : {a b : ℕ} (d : ℕ) → a < b → b + d < 2 ^ 16 → ((d + 1) % 2 ^ 16) ≡ suc d
        next d h k = omega arith

        not_itself : (n : ℕ) → mem n (g.observers n) ≡ false
        not_itself n = elim (Bool-cases (mem n (g.observers n))) [
          | inl loop ↦ absurd (never (falls n n loop))
          | inr fine ↦ fine
        ]
          where
            never : {a : ℕ} → a < a → ⊥
            never h = omega arith

        rises : {a b c d e : ℕ} → a ≡ b → b < c → c ≤ d → d ≤ e → a < e
        rises e h k l = omega arith

        before : {b c : Bool} → b ≡ false → (b || c) ≡ true → c ≡ true
        before e h = ground arith

        with_old : (b c : Bool) → c ≡ true → (b || c) ≡ true
        with_old b c h = ground arith

        with_new : (b c : Bool) → b ≡ true → (b || c) ≡ true
        with_new b c h = ground arith

    pub collect_lem : (fuel : ℕ) → Collects (λ n d out h. collect_observers now fuel n out d h) fuel
    unfolding collect_observers
    collect_lem zero n d out depth cache right below small w start = absurd (none below)
      where
        none : {a : ℕ} → a < 0 → ⊥
        none h = omega arith
    collect_lem (suc fuel) n d out depth cache right below small w start =
        let p = immediate_lem g now seen n d out depth cache right in
        let b =
          level_lem (λ m e o h. collect_observers now fuel m o e h) fuel n d out depth cache
            (collect_lem fuel) p below small w start in
        subst (λ c. Gathered g c (Walk (Observes g) n) (λ u. u ≡ n) out depth)
          (sym (
            ap
              (λ (r : NodeSet × NodeSet × Graph).
                collect_each (λ ob o h. collect_observers now fuel ob o ((d + 1) % 2 ^ 16) h) r.1
                  r.0 r.2)
              p.result))
          b
