-- ===== src/Memory/Sbo.antt =====
-- `SBOResource` (include/reaction/memory/sbo_resource.h): the union, its two flags, and every
-- operation on them.
use reaction.Prelude.{ℕ, Bool, true, false, not, ◌&&◌, Option, none, some, if◌then◌else◌}
use reaction.Memory.{TypeInfo, always_sbo, conditional_sbo, StackMonitor, guard_begin, guard_end}
use reaction.Memory.Impl.{
  Access, got, not_initialized, null_pointer, undefined_behaviour, differs, Operation, outcome_of,
}

-- Which object lives in the union: none, the value, or the unique pointer.
pub data Storage (V : Type 0) : Type 0 where
  no_object : Storage V
  buffer : V → Storage V
  heap_ptr : Option V → Storage V

pub record SboResource (V : Type 0) : Type 0 where
  pub storage : Storage V
  pub is_sbo_storage : Bool
  pub is_initialized : Bool

pub record StorageInfo : Type 0 where
  pub using_sbo : Bool
  pub initialized : Bool
  pub type_size : ℕ
  pub stack_usage : ℕ

module _ {V : Type 0} where
  -- The default constructor.
  unfoldable pub sbo_empty : SboResource V
  sbo_empty = record { storage = heap_ptr none; is_sbo_storage = false; is_initialized = false }

  -- The end of each branch that constructs the value in the buffer, and on the heap.
  unfoldable pub in_buffer : V → SboResource V
  in_buffer v = record { storage = buffer v; is_sbo_storage = true; is_initialized = true }

  unfoldable pub on_heap : V → SboResource V
  on_heap v = record { storage = heap_ptr (some v); is_sbo_storage = false; is_initialized = true }

  -- What is read through the buffer, and through the pointer.
  unfoldable pub read_buffer : Storage V → Access V
  read_buffer (buffer v) = got v
  read_buffer (heap_ptr p) = undefined_behaviour
  read_buffer no_object = undefined_behaviour

  unfoldable pub read_heap : Storage V → Access V
  read_heap (heap_ptr (some v)) = got v
  read_heap (heap_ptr none) = undefined_behaviour
  read_heap (buffer v) = undefined_behaviour
  read_heap no_object = undefined_behaviour

module _ {V : Type 0} (t : TypeInfo V) where
  -- The value, in the place where it is looked for once it is initialised.
  unfoldable pub read_value : SboResource V → Access V
  unfolding read_buffer read_heap always_sbo
  read_value r =
      if always_sbo t
      then read_buffer r.storage
      else if r.is_sbo_storage
      then read_buffer r.storage
      else read_heap r.storage

  -- The constructor from a value, and `initializeWithImpl` of a resource with no value yet, as
  -- `updateValue` calls it: the guard lives until the block ends.
  unfoldable pub place_value : V → StackMonitor → SboResource V × StackMonitor
  unfolding always_sbo conditional_sbo in_buffer on_heap guard_begin guard_end
  place_value v m =
      let (allocated, m') = guard_begin t.size m in
      if always_sbo t
      then (in_buffer v, m)
      else if conditional_sbo t
      then ((if allocated then in_buffer v else on_heap v), guard_end t.size allocated m')
      else (on_heap v, m)

  -- `getValue`
  unfoldable pub sbo_get_value : SboResource V → Access V
  unfolding read_value
  sbo_get_value r = if r.is_initialized then read_value r else not_initialized

  -- Assigning to the value that is there.
  unfoldable pub assign : V → SboResource V → SboResource V
  unfolding always_sbo
  assign v r =
      let to_buffer = record r { storage = buffer v } in
      let to_heap = record r { storage = heap_ptr (some v) } in
      if always_sbo t then to_buffer else if r.is_sbo_storage then to_buffer else to_heap

  -- `updateValue` of the value that is found.
  unfoldable pub overwrite : V → SboResource V → Access V → Access (Bool × SboResource V)
  unfolding assign differs
  overwrite v r (got old) = got (differs t.ne old v, if differs t.ne old v then assign v r else r)
  overwrite v r not_initialized = not_initialized
  overwrite v r null_pointer = null_pointer
  overwrite v r undefined_behaviour = undefined_behaviour

  -- `updateValue`: the result, the resource and the thread's account.
  unfoldable pub sbo_update_value :
      V → SboResource V → StackMonitor → Access (Bool × SboResource V) × StackMonitor
  unfolding place_value read_value overwrite
  sbo_update_value v r m =
      let (placed, m') = place_value v m in
      if r.is_initialized then (overwrite v r (read_value r), m) else (got (true, placed), m')

  -- What `atomicOperation` reads and writes goes by the flag alone.
  unfoldable pub sbo_atomic_operation :
      Bool → Bool → Operation V → SboResource V → Access (Bool × SboResource V)
  unfolding read_buffer read_heap outcome_of
  sbo_atomic_operation batch_execute always_changed op r =
      let run : Access V → (V → Storage V) → Access (Bool × SboResource V) = λ found store.
        elim found [
          | got v ↦ got (
            not batch_execute && outcome_of (op v).0 always_changed,
            record r { storage = store (op v).1 },
          )
          | not_initialized ↦ not_initialized
          | null_pointer ↦ null_pointer
          | undefined_behaviour ↦ undefined_behaviour
        ] in
      if r.is_initialized
      then (if r.is_sbo_storage
          then run (read_buffer r.storage) (λ v. buffer v)
          else run (read_heap r.storage) (λ v. heap_ptr (some v)))
      else got (false, r)

  -- `getRawPtr`: what the pointer points to, which is looked for as in `getValue`.
  unfoldable pub sbo_get_raw : SboResource V → Access V
  unfolding read_value
  sbo_get_raw r = if r.is_initialized then read_value r else null_pointer

  unfoldable pub empty_union : SboResource V
  empty_union = record { storage = no_object; is_sbo_storage = false; is_initialized = false }

  -- The destructors of what should be in the union.
  unfoldable pub destroy_value : Storage V → Access (SboResource V)
  unfolding empty_union
  destroy_value (buffer v) = got empty_union
  destroy_value (heap_ptr p) = undefined_behaviour
  destroy_value no_object = undefined_behaviour

  unfoldable pub destroy_heap_ptr : Storage V → Access (SboResource V)
  unfolding empty_union
  destroy_heap_ptr (heap_ptr p) = got empty_union
  destroy_heap_ptr (buffer v) = undefined_behaviour
  destroy_heap_ptr no_object = undefined_behaviour

  -- `destroy`
  unfoldable pub destroy : SboResource V → Access (SboResource V)
  unfolding destroy_value destroy_heap_ptr
  destroy r =
      if r.is_initialized
      then (if r.is_sbo_storage then destroy_value r.storage else destroy_heap_ptr r.storage)
      else destroy_heap_ptr r.storage

  unfoldable pub is_using_sbo : SboResource V → Bool
  is_using_sbo r = r.is_sbo_storage

  unfoldable pub get_storage_info : SboResource V → StorageInfo
  get_storage_info r = record {
    using_sbo = r.is_sbo_storage;
    initialized = r.is_initialized;
    type_size = t.size;
    stack_usage = if r.is_sbo_storage then t.size else 0;
  }
