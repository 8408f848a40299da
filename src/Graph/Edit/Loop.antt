-- ===== src/Graph/Edit/Loop.antt =====
-- The loops of observer_graph.h that add several dependencies to one node.
use reaction.Prelude.{
  ℕ, ◌≡◌, refl, ◌∙◌, ◌⊎◌, inl, inr, true, ◌||◌, ◌&&◌, List, [], ◌∷◌, nat_beq, nat_beq_iff, mem,
  arith, Bool-cases,
}
use mathlib.Core.Path.{subst}
use reaction.Prelude.Walks.{Reach}
use reaction.Exception.{ok, throw, ReactionException}
use reaction.Graph.State.{Graph, Op, ◌>>=◌, ◌>>◌, dependents}
use reaction.Graph.Edges.{Edge}
use reaction.Graph.Invariant.{IsWellFormed, Keeps, Keeps-refl, Keeps-trans}
use reaction.Graph.HasCycle.{SoundFor}
use reaction.Graph.Edit.{for_each, add_observer_internal}
use reaction.Graph.Edit.Add.{
  AgreeOff, AgreeOff-trans, AgreeOff-of_same, Reach-off, Added, Added-off, refusal, get_name-Keeps,
  add_observer_internal_lem,
}

-- All of `ds` were added as dependencies of `s`, and no other edge changed.
pub record AddedAll (s : ℕ) (ds : List ℕ) (g g' : Graph) : Type 0 where
  pub valid : IsWellFormed g'
  pub sound : SoundFor s g'
  pub keeps : Keeps g g'
  pub allowed : (t : ℕ) → mem t ds ≡ true → ¬ Reach (Edge g) t s
  pub deps :
      (x y : ℕ) → mem y (dependents g' x) ≡ (nat_beq s x && mem y ds || mem y (dependents g x))

-- One of `ds` was refused, since it leads to `s`. Only edges that leave `s` may have changed.
pub record Stopped (s : ℕ) (ds : List ℕ) (g : Graph) (e : ReactionException) (g' : Graph)
    : Type 0 where
  pub valid : IsWellFormed g'
  pub sound : SoundFor s g'
  pub keeps : Keeps g g'
  pub off : AgreeOff s g g'
  pub culprit : ℕ
  pub listed : mem culprit ds ≡ true
  pub closes : Reach (Edge g) culprit s
  pub exception : e ≡ refusal g s culprit

abbrev pub AllAlive : Graph → List ℕ → Type 0
AllAlive g ds = (t : ℕ) → mem t ds ≡ true → g.alive t ≡ true

module _ (now s : ℕ) (body : ℕ → Op (Unit {0}))
    (adds : (t : ℕ) (h : Graph)
      → h.alive t ≡ true
      → body t h ≡ add_observer_internal now s t h) where
  head_listed : (t : ℕ) (ds : List ℕ) → mem t (t ∷ ds) ≡ true
  unfolding mem
  head_listed t ds = ground (arith, nat_beq_iff t t)

  tail_listed : (t u : ℕ) (ds : List ℕ) → mem t ds ≡ true → mem t (u ∷ ds) ≡ true
  unfolding mem
  tail_listed t u ds h = ground arith

  pub AddedAll-cons :
      (t : ℕ) (ds : List ℕ) (g h k : Graph)
      → Added s t g h
      → AddedAll s ds h k
      → AddedAll s (t ∷ ds) g k
  unfolding mem
  AddedAll-cons t ds g h k a rest = record {
    valid = rest.valid;
    sound = rest.sound;
    keeps = Keeps-trans a.keeps rest.keeps;
    allowed = λ u l r. elim (Bool-cases (nat_beq u t)) [
      | inl same ↦ a.allowed (subst (λ x. Reach (Edge g) x s) ((nat_beq_iff u t).0 same) r)
      | inr other ↦ rest.allowed u (ground arith) ((Reach-off g h u (Added-off s t g h a)).0 r)
    ];
    deps = λ x y. ground (arith, rest.deps x y, a.deps x y, nat_beq_iff t y, nat_beq_iff y t);
  }

  Stopped-cons :
      (t : ℕ) (ds : List ℕ) (g h : Graph) (e : ReactionException) (k : Graph)
      → Added s t g h
      → Stopped s ds h e k
      → Stopped s (t ∷ ds) g e k
  Stopped-cons t ds g h e k a rest = record {
    valid = rest.valid;
    sound = rest.sound;
    keeps = Keeps-trans a.keeps rest.keeps;
    off = AgreeOff-trans (Added-off s t g h a) rest.off;
    culprit = rest.culprit;
    listed = tail_listed rest.culprit t ds rest.listed;
    closes = (Reach-off g h rest.culprit (Added-off s t g h a)).1 rest.closes;
    exception =
        rest.exception ∙ rw (get_name-Keeps g h s a.keeps, get_name-Keeps g h rest.culprit a.keeps);
  }

  for_each-next :
      (t : ℕ) (ds : List ℕ) (g : Graph)
      → g.alive t ≡ true
      → for_each body (t ∷ ds) g ≡ (add_observer_internal now s t >> for_each body ds) g
  unfolding for_each
  for_each-next t ds g live = rw (◌>>=◌, adds t g live)

  -- The loop over `ds` adds all of them, or stops at one that leads to `s`.
  pub for_each_lem :
      (ds : List ℕ) (g : Graph)
      → IsWellFormed g
      → SoundFor s g
      → g.alive s ≡ true
      → AllAlive g ds
      → ((g' : Graph) × (for_each body ds g ≡ ok tt g') × AddedAll s ds g g')
        ⊎ ((e : ReactionException) × (g' : Graph) × (for_each body ds g ≡ throw e g')
            × Stopped s ds g e g')
  unfolding for_each mem
  for_each_lem [] g w sound ls alive = inl (
    g,
    refl,
    record {
      valid = w;
      sound = sound;
      keeps = Keeps-refl g;
      allowed = λ t h. cc;
      deps = λ x y. ground arith;
    },
  )
  for_each_lem (t ∷ ds) g w sound ls alive =
      let lt = alive t (head_listed t ds) in
      elim (add_observer_internal_lem now s t g w sound ls lt) [
        | inr (e, h, stops, r) ↦ inr (
          e,
          h,
          for_each-next t ds g lt ∙ rw (◌>>=◌, stops),
          record {
            valid = r.valid;
            sound = r.sound;
            keeps = r.same.keeps;
            off = AgreeOff-of_same s g h r.same;
            culprit = t;
            listed = head_listed t ds;
            closes = r.closes;
            exception = r.exception;
          },
        )
        | inl (h, goes, a) ↦
            elim (for_each_lem ds h a.valid a.sound (a.keeps.alive s ∙ ls)
              (λ u l. a.keeps.alive u ∙ alive u (tail_listed u t ds l))) [
                | inl (k, e, all) ↦ inl (
                  k,
                  for_each-next t ds g lt ∙ rw (◌>>=◌, goes, e),
                  AddedAll-cons t ds g h k a all,
                )
                | inr (x, k, e, stop) ↦ inr (
                  x,
                  k,
                  for_each-next t ds g lt ∙ rw (◌>>=◌, goes, e),
                  Stopped-cons t ds g h x k a stop,
                )
              ]
      ]
