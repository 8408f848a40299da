-- ===== src/Memory/Impl.antt =====
-- `ResourceImpl` (include/reaction/core/resource.h): the value on the heap, or a null pointer.
use reaction.Prelude.{Bool, true, false, not, Option, none, some, if◌then◌else◌, ◌&&◌}
use reaction.Memory.{TypeInfo}

-- How an access ends: the value, an exception, or the read of memory that holds no such object.
pub data Access (A : Type 0) : Type 0 where
  got : A → Access A
  not_initialized null_pointer undefined_behaviour : Access A

-- What the function given to `atomicOperation` does: the value that it leaves, and its result
-- unless it threw a `std::runtime_error`.
abbrev pub Operation : Type 0 → Type 0
Operation V = V → Option Bool × V

-- Whether the operation counts as a change: an exception means that it does not.
unfoldable pub outcome_of : Option Bool → Bool → Bool
outcome_of none always_changed = false
outcome_of (some changed) always_changed = if always_changed then true else changed

module _ {V : Type 0} where
  -- Whether an assignment changes the value: `!=`, where the type has it.
  unfoldable pub differs : Option (V → V → Bool) → V → V → Bool
  differs none old new = true
  differs (some ne) old new = ne old new

  unfoldable pub impl_get_value : Option V → Access V
  impl_get_value none = not_initialized
  impl_get_value (some v) = got v

  -- Whether the value changed, and the value.
  unfoldable pub impl_update_value : TypeInfo V → V → Option V → Bool × Option V
  unfolding differs
  impl_update_value t v none = (true, some v)
  impl_update_value t v (some old) =
      let changed = differs t.ne old v in (changed, if changed then some v else some old)

  -- `getRawPtr`: what the pointer points to.
  unfoldable pub impl_get_raw : Option V → Access V
  impl_get_raw none = null_pointer
  impl_get_raw (some v) = got v

  -- `atomicOperation`: whether the observers are notified, and the value.
  unfoldable pub impl_atomic_operation : Bool → Bool → Operation V → Option V → Bool × Option V
  unfolding outcome_of
  impl_atomic_operation batch_execute always_changed op none = (false, none)
  impl_atomic_operation batch_execute always_changed op (some v) =
      let (result, v') = op v in (not batch_execute && outcome_of result always_changed, some v')

  -- `atomicCompoundAssign`: the operation that it passes on.
  unfoldable pub compound_assign :
      {U : Type 0} → Option (V → V → Bool) → (V → U → V) → U → Operation V
  unfolding differs
  compound_assign ne f rhs v = (some (differs ne v (f v rhs)), f v rhs)

  -- `atomicIncrement` and `atomicDecrement`, which the library calls with `always_changed`.
  unfoldable pub step_value : (V → V) → Operation V
  step_value f v = (some true, f v)
