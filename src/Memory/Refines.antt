-- ===== src/Memory/Refines.antt =====
-- `SBOResource` does what `ResourceImpl` does, wherever it keeps the value.
use reaction.Prelude.{
  ℕ, ◌+◌, ◌-◌, ◌%◌, ◌^◌, ◌≤◌, ◌<◌, ◌≡◌, refl, sym, ap, ◌∙◌, ◌⊎◌, inl, inr, Bool, true, false, not,
  ◌&&◌, Option, none, some, arith, Bool-cases, if_true, if_false,
}
use mathlib.Core.Path.{subst}
use reaction.Memory.{
  TypeInfo, always_sbo, conditional_sbo, StackMonitor, can_allocate, guard_begin, guard_end,
}
use reaction.Memory.Impl.{
  Access, got, Operation, differs, outcome_of, impl_get_value, impl_update_value,
  impl_atomic_operation, impl_get_raw,
}
use reaction.Memory.Sbo.{
  SboResource, sbo_empty, in_buffer, on_heap, read_buffer, read_heap, read_value, place_value,
  assign, overwrite, sbo_get_value, sbo_update_value, sbo_atomic_operation, sbo_get_raw,
  empty_union, destroy,
}

module _ {V : Type 0} (t : TypeInfo V) where
  -- The resource that stands for no value, and those that stand for `v`.
  abbrev pub Represents : SboResource V → Option V → Type 0
  Represents r none = r ≡ sbo_empty
  Represents r (some v) = (r ≡ in_buffer v) ⊎ (always_sbo t ≡ false) × (r ≡ on_heap v)

  place_value-Represents : (v : V) (m : StackMonitor) → Represents (place_value t v m).0 (some v)
  unfolding place_value
  place_value-Represents v m = elim (Bool-cases (always_sbo t)) [
    | inl always ↦ inl (ap (λ (p : SboResource V × StackMonitor). p.0) (if_true always _ _))
    | inr never ↦ elim (Bool-cases (conditional_sbo t)) [
      | inl middle ↦ elim (Bool-cases (guard_begin t.size m).0) [
        | inl room ↦ inl (rw (never, middle, room))
        | inr full ↦ inr (never, rw (never, middle, full))
      ]
      | inr large ↦ inr (never, rw (never, large))
    ]
  ]

  read_value_lem : (r : SboResource V) (v : V) → Represents r (some v) → read_value t r ≡ got v
  unfolding read_value in_buffer on_heap read_buffer read_heap
  read_value_lem r v (inl e) = elim (Bool-cases (always_sbo t)) [
    | inl always ↦ rw (e, always)
    | inr never ↦ rw (e, never)
  ]
  read_value_lem r v (inr (never, e)) = rw (e, never)

  assign-Represents :
      (r : SboResource V) (v w : V) → Represents r (some v) → Represents (assign t w r) (some w)
  unfolding assign in_buffer on_heap
  assign-Represents r v w (inl e) = elim (Bool-cases (always_sbo t)) [
    | inl always ↦ inl (rw (e, always))
    | inr never ↦ inl (rw (e, never))
  ]
  assign-Represents r v w (inr (never, e)) = inr (never, rw (e, never))

  initialized_of : (r : SboResource V) (v : V) → Represents r (some v) → r.is_initialized ≡ true
  unfolding in_buffer on_heap
  initialized_of r v (inl e) = ap (λ (x : SboResource V). x.is_initialized) e
  initialized_of r v (inr (_, e)) = ap (λ (x : SboResource V). x.is_initialized) e

  get_refines :
      (r : SboResource V) (o : Option V) → Represents r o → sbo_get_value t r ≡ impl_get_value o
  unfolding sbo_get_value impl_get_value sbo_empty
  get_refines r none e = if_false (ap (λ (x : SboResource V). x.is_initialized) e) _ _
  get_refines r (some v) e = if_true (initialized_of r v e) _ _ ∙ read_value_lem r v e

  update_refines :
      (r : SboResource V) (o : Option V) (v : V) (m : StackMonitor)
      → Represents r o
      → (r' : SboResource V) × ((sbo_update_value t v r m).0
          ≡ got ((impl_update_value t v o).0, r'))
        × Represents r' (impl_update_value t v o).1
  unfolding sbo_update_value impl_update_value sbo_empty
  update_refines r none v m e = (
    (place_value t v m).0,
    ap (λ (p : Access (Bool × SboResource V) × StackMonitor). p.0)
        (if_false (ap (λ (x : SboResource V). x.is_initialized) e) _ _),
    place_value-Represents v m,
  )
  update_refines r (some old) v m e =
      let found : (sbo_update_value t v r m).0 ≡ overwrite t v r (got old) =
        ap (λ (p : Access (Bool × SboResource V) × StackMonitor). p.0)
          (if_true (initialized_of r old e) _ _)
        ∙ ap (overwrite t v r) (read_value_lem r old e) in
      elim (Bool-cases (differs t.ne old v)) [
        | inl new ↦
            (assign t v r, found ∙ rw (new, overwrite), rw new (assign-Represents r old v e))
        | inr same ↦ (r, found ∙ rw (same, overwrite), rw same e)
      ]

  atomic_refines :
      (r : SboResource V) (o : Option V) (batch_execute always_changed : Bool) (op : Operation V)
      → Represents r o
      → (r' : SboResource V) × (sbo_atomic_operation t batch_execute always_changed op r
          ≡ got ((impl_atomic_operation batch_execute always_changed op o).0, r'))
        × Represents r' (impl_atomic_operation batch_execute always_changed op o).1
  unfolding sbo_atomic_operation impl_atomic_operation sbo_empty in_buffer on_heap read_buffer
      read_heap
  atomic_refines r none batch always op e =
      (r, if_false (ap (λ (x : SboResource V). x.is_initialized) e) _ _, e)
  atomic_refines r (some v) batch always op (inl e) = (
    in_buffer (op v).1,
    subst
        (λ x.
          sbo_atomic_operation t batch always op x
          ≡ got (not batch && outcome_of (op v).0 always, in_buffer (op v).1))
        (sym e) refl,
    inl refl,
  )
  atomic_refines r (some v) batch always op (inr (never, e)) = (
    on_heap (op v).1,
    subst
        (λ x.
          sbo_atomic_operation t batch always op x
          ≡ got (not batch && outcome_of (op v).0 always, on_heap (op v).1))
        (sym e) refl,
    inr (never, refl),
  )

  raw_refines :
      (r : SboResource V) (o : Option V) → Represents r o → sbo_get_raw t r ≡ impl_get_raw o
  unfolding sbo_get_raw impl_get_raw sbo_empty
  raw_refines r none e = if_false (ap (λ (x : SboResource V). x.is_initialized) e) _ _
  raw_refines r (some v) e = if_true (initialized_of r v e) _ _ ∙ read_value_lem r v e

  destroy_lem :
      (r : SboResource V) (o : Option V) → Represents r o → destroy t r ≡ got (empty_union t)
  unfolding destroy sbo_empty in_buffer on_heap
  destroy_lem r none e = ap (destroy t) e
  destroy_lem r (some v) (inl e) = ap (destroy t) e
  destroy_lem r (some v) (inr (_, e)) = ap (destroy t) e

  -- If an `SBOResource` stands for a value, or for none, so far as `ResourceImpl` holds it, then
  -- `getValue` gives the same value or exception; `updateValue` gives the same answer and both
  -- stand for the same value again; and so does `atomicOperation` with its notification;
  -- `getRawPtr` throws or points to the same value; and the destructor finds in the union what it
  -- looks for. No operation has undefined behaviour.
  pub sbo_refines_lem :
      (r : SboResource V) (o : Option V) (v : V) (m : StackMonitor)
      (batch_execute always_changed : Bool) (op : Operation V)
      → Represents r o
      → (sbo_get_value t r ≡ impl_get_value o)
        × ((r' : SboResource V) × ((sbo_update_value t v r m).0
              ≡ got ((impl_update_value t v o).0, r'))
            × Represents r' (impl_update_value t v o).1)
        × ((r' : SboResource V) × (sbo_atomic_operation t batch_execute always_changed op r
              ≡ got ((impl_atomic_operation batch_execute always_changed op o).0, r'))
            × Represents r' (impl_atomic_operation batch_execute always_changed op o).1)
        × (sbo_get_raw t r ≡ impl_get_raw o)
        × (destroy t r ≡ got (empty_union t))
  sbo_refines_lem r o v m batch always op e = (
    get_refines r o e,
    update_refines r o v m e,
    atomic_refines r o batch always op e,
    raw_refines r o e,
    destroy_lem r o e,
  )

  -- The account after a guard is the account before it.
  guard_lem :
      (m : StackMonitor)
      → m.current_usage < 2 ^ 64
      → t.size ≤ 2 ^ 64
      → guard_end t.size (guard_begin t.size m).0 (guard_begin t.size m).1 ≡ m
  unfolding guard_begin guard_end
  guard_lem m small size = elim (Bool-cases (can_allocate t.size m)) [
    | inl room ↦ rw room (ap (λ (n : ℕ). record m { current_usage = n }) (back small size))
    | inr full ↦ rw full
  ]
    where
      back : {a b : ℕ} → a < 2 ^ 64 → b ≤ 2 ^ 64 → ((a + b) % 2 ^ 64 + 2 ^ 64 - b) % 2 ^ 64 ≡ a
      back h k = omega arith

  -- Placing a value keeps it, and leaves the thread's account of the stack as it was, whether the
  -- value is in the buffer or not, for an account and a size that fit in 64 bits: the guard that
  -- takes the memory gives it back at the end of the block.
  pub place_value_lem :
      (v : V) (m : StackMonitor)
      → m.current_usage < 2 ^ 64
      → t.size ≤ 2 ^ 64
      → Represents (place_value t v m).0 (some v) × ((place_value t v m).1 ≡ m)
  unfolding place_value
  place_value_lem v m small size = (place_value-Represents v m, account)
    where
      account : (place_value t v m).1 ≡ m
      account = elim (Bool-cases (always_sbo t)) [
        | inl always ↦ rw always
        | inr never ↦ elim (Bool-cases (conditional_sbo t)) [
          | inl middle ↦ rw (never, middle) (guard_lem m small size)
          | inr large ↦ rw (never, large)
        ]
      ]
