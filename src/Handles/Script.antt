-- ===== src/Handles/Script.antt =====
-- Whatever a program does to its handles keeps the counts (include/reaction/core/react.h).
use reaction.Prelude.{
  ℕ, suc, ◌+◌, ◌^◌, ◌<◌, ◌≡◌, sym, inl, inr, true, false, none, some, List, [], ◌∷◌, nat_beq,
  length, arith, Bool-cases, Option-cases,
}
use mathlib.Core.Path.{subst}
use reaction.Graph.State.{NodePtr}
use reaction.Handles.{
  Invalidation, Handles, at, remove_at, safe_release_ref, copy_assign, move_assign, destroy_handle,
  Operation, constructs, copies, moves, destroys, copy_assigns, move_assigns, operate, operate_all,
}
use reaction.Handles.Counting.{count-le_length, count-remove_at, safe_release_ref_lem}
use reaction.Handles.Copies.{
  length-remove_at, IsCounted, recount, construct-IsCounted, stays, copy_construct-IsCounted,
  move_construct-IsCounted, copied, copied-IsCounted, taken, taken-IsCounted,
}

module _ {W : Type 0} (inv : Invalidation W) where
  module _ (most : ℕ) (fits : most + 1 < 2 ^ 32) (h : Handles W) (k : IsCounted inv most h) where
    copy_assign-IsCounted : (i j : ℕ) → IsCounted inv (suc most) (copy_assign inv i j h)
    unfolding copy_assign
    copy_assign-IsCounted i j = elim (Bool-cases (nat_beq i j)) [
      | inl same ↦ subst (IsCounted inv (suc most)) (sym (self same)) (stays inv most fits h k)
      | inr away ↦ elim (Option-cases (at i h.handles)) [
        | inl gone ↦
            subst (IsCounted inv (suc most)) (sym (missing away gone)) (stays inv most fits h k)
        | inr (p, e) ↦ elim (Option-cases (at j h.handles)) [
          | inl gone ↦
              subst (IsCounted inv (suc most)) (sym (nothing p away e gone))
                (stays inv most fits h k)
          | inr (q, f) ↦
              subst (IsCounted inv (suc most)) (sym (found p q away e f))
                (copied-IsCounted inv most fits h k i j p q away e f)
        ]
      ]
    ]
      where
        self : nat_beq i j ≡ true → copy_assign inv i j h ≡ h
        self s = rw (copy_assign, s)

        missing : nat_beq i j ≡ false → at i h.handles ≡ none → copy_assign inv i j h ≡ h
        missing s e = rw (copy_assign, s, e)

        nothing :
            (p : NodePtr)
            → nat_beq i j ≡ false
            → at i h.handles ≡ some p
            → at j h.handles ≡ none
            → copy_assign inv i j h ≡ h
        nothing p s e f = rw (copy_assign, s, e, f)

        found :
            (p q : NodePtr) (s : nat_beq i j ≡ false) (e : at i h.handles ≡ some p)
            (f : at j h.handles ≡ some q)
            → copy_assign inv i j h ≡ copied inv most fits h k i j p q s e f
        found p q s e f = rw (copy_assign, s, e, f)

    move_assign-IsCounted : (i j : ℕ) → IsCounted inv (suc most) (move_assign inv i j h)
    unfolding move_assign
    move_assign-IsCounted i j = elim (Bool-cases (nat_beq i j)) [
      | inl same ↦ subst (IsCounted inv (suc most)) (sym (self same)) (stays inv most fits h k)
      | inr away ↦ elim (Option-cases (at i h.handles)) [
        | inl gone ↦
            subst (IsCounted inv (suc most)) (sym (missing away gone)) (stays inv most fits h k)
        | inr (p, e) ↦ elim (Option-cases (at j h.handles)) [
          | inl gone ↦
              subst (IsCounted inv (suc most)) (sym (nothing p away e gone))
                (stays inv most fits h k)
          | inr (q, f) ↦
              subst (IsCounted inv (suc most)) (sym (found p q away e f))
                (taken-IsCounted inv most fits h k i j p q away e f)
        ]
      ]
    ]
      where
        self : nat_beq i j ≡ true → move_assign inv i j h ≡ h
        self s = rw (move_assign, s)

        missing : nat_beq i j ≡ false → at i h.handles ≡ none → move_assign inv i j h ≡ h
        missing s e = rw (move_assign, s, e)

        nothing :
            (p : NodePtr)
            → nat_beq i j ≡ false
            → at i h.handles ≡ some p
            → at j h.handles ≡ none
            → move_assign inv i j h ≡ h
        nothing p s e f = rw (move_assign, s, e, f)

        found :
            (p q : NodePtr) (s : nat_beq i j ≡ false) (e : at i h.handles ≡ some p)
            (f : at j h.handles ≡ some q)
            → move_assign inv i j h ≡ taken inv most fits h k i j p q s e f
        found p q s e f = rw (move_assign, s, e, f)

    removed : (i : ℕ) (p : NodePtr) → Handles W
    removed i p = record { handles = remove_at i h.handles; refs = safe_release_ref inv p h.refs }

    removed-IsCounted :
        (i : ℕ) (p : NodePtr) → at i h.handles ≡ some p → IsCounted inv (suc most) (removed i p)
    unfolding removed
    removed-IsCounted i p e = record {
      counted =
          safe_release_ref_lem inv p h.refs _
            (λ n. omega (
              arith,
              fits,
              k.few,
              length-remove_at i h.handles,
              count-le_length n (remove_at i h.handles),
            ))
            (recount inv h.refs _ _ (λ n. omega (arith, count-remove_at n i p h.handles e))
              k.counted);
      few = omega (arith, k.few, length-remove_at i h.handles);
    }

    destroy_handle-IsCounted : (i : ℕ) → IsCounted inv (suc most) (destroy_handle inv i h)
    unfolding destroy_handle removed
    destroy_handle-IsCounted i = elim (Option-cases (at i h.handles)) [
      | inl gone ↦ subst (IsCounted inv (suc most)) (sym (missing gone)) (stays inv most fits h k)
      | inr (p, e) ↦ subst (IsCounted inv (suc most)) (sym (found p e)) (removed-IsCounted i p e)
    ]
      where
        missing : at i h.handles ≡ none → destroy_handle inv i h ≡ h
        missing e = rw (destroy_handle, e)

        found : (p : NodePtr) → at i h.handles ≡ some p → destroy_handle inv i h ≡ removed i p
        found p e = rw (destroy_handle, e)

    operate-IsCounted : (o : Operation) → IsCounted inv (suc most) (operate inv o h)
    unfolding operate
    operate-IsCounted (constructs p) = construct-IsCounted inv most fits h k p
    operate-IsCounted (copies i) = copy_construct-IsCounted inv most fits h k i
    operate-IsCounted (moves i) = move_construct-IsCounted inv most fits h k i
    operate-IsCounted (destroys i) = destroy_handle-IsCounted i
    operate-IsCounted (copy_assigns i j) = copy_assign-IsCounted i j
    operate-IsCounted (move_assigns i j) = move_assign-IsCounted i j

-- For every invalidation policy that brings no node to life: when the count of each living node is
-- the number of its handles, of which there are at most `most`, then after any sequence of
-- operations that keeps their number below what an `int` can count, it is so again.
pub operate_all-IsCounted :
    {W : Type 0} (inv : Invalidation W) (os : List Operation) (most : ℕ) (h : Handles W)
    → most + length os < 2 ^ 32
    → IsCounted inv most h
    → IsCounted inv (most + length os) (operate_all inv os h)
unfolding operate_all
operate_all-IsCounted inv [] most h fits k = record {
  counted = k.counted;
  few = omega (arith, k.few);
}
operate_all-IsCounted inv (o ∷ os) most h fits k =
    let r =
      operate_all-IsCounted inv os (suc most) (operate inv o h) (omega (arith, fits))
        (operate-IsCounted inv most (omega (arith, fits)) h k o) in
    record { counted = r.counted; few = omega (arith, r.few) }
