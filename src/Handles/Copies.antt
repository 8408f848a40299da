-- ===== src/Handles/Copies.antt =====
-- The copies and moves of handles keep the counts (include/reaction/core/react.h).
use reaction.Prelude.{
  ℕ, zero, suc, ◌+◌, ◌^◌, ◌≤◌, ◌<◌, ◌≡◌, refl, sym, ap, ◌∙◌, inl, inr, false, none, some, List, [],
  ◌∷◌, nat_beq, length, arith, Option-cases,
}
use mathlib.Core.Path.{subst}
use reaction.Graph.State.{NodePtr}
use reaction.Handles.{
  Invalidation, Refs, Handles, at, set_at, remove_at, safe_add_ref, safe_release_ref, construct,
  copy_construct, move_construct,
}
use reaction.Handles.Counting.{
  points, count, count-le_length, count-set_at, Counts, safe_add_ref_lem, safe_release_ref_lem,
}

length-set_at : (i : ℕ) (q : NodePtr) (ps : List NodePtr) → length (set_at i q ps) ≡ length ps
unfolding set_at
length-set_at i q [] = refl
length-set_at zero q (p ∷ ps) = refl
length-set_at (suc i) q (p ∷ ps) = ap suc (length-set_at i q ps)

pub length-remove_at : (i : ℕ) (ps : List NodePtr) → length (remove_at i ps) ≤ length ps
unfolding remove_at
length-remove_at i [] = omega arith
length-remove_at zero (p ∷ ps) = omega arith
length-remove_at (suc i) (p ∷ ps) = omega (arith, length-remove_at i ps)

at-set_at :
    (i j : ℕ) (q : NodePtr) (ps : List NodePtr)
    → nat_beq i j ≡ false
    → at j (set_at i q ps) ≡ at j ps
unfolding at set_at
at-set_at i j q [] away = refl
at-set_at zero zero q (p ∷ ps) away = ground (arith, away)
at-set_at zero (suc j) q (p ∷ ps) away = refl
at-set_at (suc i) zero q (p ∷ ps) away = refl
at-set_at (suc i) (suc j) q (p ∷ ps) away = at-set_at i j q ps (ground (arith, away))

points-none : (n : ℕ) → points n none ≡ 0
unfolding points
points-none n = refl

count-cons : (n : ℕ) (p : NodePtr) (ps : List NodePtr) → count n (p ∷ ps) ≡ points n p + count n ps
unfolding count
count-cons n p ps = refl

module _ {W : Type 0} (inv : Invalidation W) where
  -- The count of each living node is the number of its handles, of which there are at most `most`.
  pub record IsCounted (most : ℕ) (h : Handles W) : Type 0 where
    pub counted : Counts inv h.refs (λ n. count n h.handles)
    pub few : length h.handles ≤ most

  pub recount : (r : Refs W) (c d : ℕ → ℕ) → ((n : ℕ) → c n ≡ d n) → Counts inv r c → Counts inv r d
  recount r c d same h n a = h n a ∙ same n

  module _ (most : ℕ) (fits : most + 1 < 2 ^ 32) (h : Handles W) (k : IsCounted most h) where
    room : (n : ℕ) → count n h.handles + 1 < 2 ^ 32
    room n = omega (arith, fits, k.few, count-le_length n h.handles)

    pub construct-IsCounted : (p : NodePtr) → IsCounted (suc most) (construct inv p h)
    unfolding construct count
    construct-IsCounted p = record {
      counted = safe_add_ref_lem inv p h.refs _ room k.counted;
      few = omega (arith, k.few);
    }

    pub stays : IsCounted (suc most) h
    stays = record { counted = k.counted; few = omega (arith, k.few) }

    pub copy_construct-IsCounted : (i : ℕ) → IsCounted (suc most) (copy_construct inv i h)
    unfolding copy_construct
    copy_construct-IsCounted i = elim (Option-cases (at i h.handles)) [
      | inl gone ↦ subst (IsCounted (suc most)) (sym (missing gone)) stays
      | inr (p, e) ↦ subst (IsCounted (suc most)) (sym (found p e)) (construct-IsCounted p)
    ]
      where
        missing : at i h.handles ≡ none → copy_construct inv i h ≡ h
        missing e = rw (copy_construct, e)

        found : (p : NodePtr) → at i h.handles ≡ some p → copy_construct inv i h ≡ construct inv p h
        found p e = rw (copy_construct, e)

    abbrev moved : ℕ → NodePtr → Handles W
    moved i p = record h { handles = p ∷ set_at i none h.handles }

    moved-IsCounted :
        (i : ℕ) (p : NodePtr) → at i h.handles ≡ some p → IsCounted (suc most) (moved i p)
    moved-IsCounted i p e = record {
      counted =
          recount h.refs _ _
            (λ n. omega (
              arith,
              count-cons n p (set_at i none h.handles),
              count-set_at n i p none h.handles e,
              points-none n,
            ))
            k.counted;
      few = omega (arith, k.few, length-set_at i none h.handles);
    }

    pub move_construct-IsCounted : (i : ℕ) → IsCounted (suc most) (move_construct inv i h)
    unfolding move_construct
    move_construct-IsCounted i = elim (Option-cases (at i h.handles)) [
      | inl gone ↦ subst (IsCounted (suc most)) (sym (missing gone)) stays
      | inr (p, e) ↦ subst (IsCounted (suc most)) (sym (found p e)) (moved-IsCounted i p e)
    ]
      where
        missing : at i h.handles ≡ none → move_construct inv i h ≡ h
        missing e = rw (move_construct, e)

        found : (p : NodePtr) → at i h.handles ≡ some p → move_construct inv i h ≡ moved i p
        found p e = rw (move_construct, e)

    -- The counts without handle `i`.
    without :
        (i : ℕ) (p : NodePtr)
        → at i h.handles ≡ some p
        → Counts inv (safe_release_ref inv p h.refs) (λ n. count n (set_at i none h.handles))
    without i p e =
        safe_release_ref_lem inv p h.refs _
          (λ n. omega (
            arith,
            fits,
            k.few,
            length-set_at i none h.handles,
            count-le_length n (set_at i none h.handles),
          ))
          (recount h.refs _ _
            (λ n. omega (arith, count-set_at n i p none h.handles e, points-none n)) k.counted)

    module _ (i j : ℕ) (p q : NodePtr) (away : nat_beq i j ≡ false) (e : at i h.handles ≡ some p)
        (f : at j h.handles ≡ some q) where
      abbrev pub copied : Handles W
      copied = record {
        handles = set_at i q h.handles;
        refs = safe_add_ref inv q (safe_release_ref inv p h.refs);
      }

      pub copied-IsCounted : IsCounted (suc most) copied
      copied-IsCounted = record {
        counted =
            recount copied.refs _ _
              (λ n. omega (
                arith,
                count-set_at n i p none h.handles e,
                count-set_at n i p q h.handles e,
                points-none n,
              ))
              (safe_add_ref_lem inv q (safe_release_ref inv p h.refs) _
                (λ n. omega (
                  arith,
                  fits,
                  k.few,
                  length-set_at i none h.handles,
                  count-le_length n (set_at i none h.handles),
                ))
                (without i p e));
        few = omega (arith, k.few, length-set_at i q h.handles);
      }

      abbrev pub taken : Handles W
      taken = record {
        handles = set_at j none (set_at i q h.handles);
        refs = safe_release_ref inv p h.refs;
      }

      pub taken-IsCounted : IsCounted (suc most) taken
      taken-IsCounted = record {
        counted =
            recount taken.refs _ _
              (λ n. omega (
                arith,
                count-set_at n i p none h.handles e,
                count-set_at n i p q h.handles e,
                count-set_at n j q none (set_at i q h.handles) (at-set_at i j q h.handles away ∙ f),
                points-none n,
              ))
              (without i p e);
        few = omega (
          arith,
          k.few,
          length-set_at i q h.handles,
          length-set_at j none (set_at i q h.handles),
        );
      }
