-- ===== src/Assign.antt =====
-- The compound assignments and the increments of a handle (include/reaction/core/react.h), which go
-- by include/reaction/expression/atomic_operations.h to `atomicOperation` of the value
-- (include/reaction/core/resource.h). The values are those of an unsigned type of so many bits,
-- not narrower than an `int`.
pub mod Correct
pub mod Tests
use reaction.Prelude.{
  ℕ, ◌+◌, ◌-◌, ◌*◌, ◌/◌, ◌%◌, ◌^◌, Bool, true, false, not, Option, none, some, if◌then◌else◌,
  nat_beq, ltb,
}
use Prim.Native.Nat.{bit_and, bit_or, bit_xor}
use reaction.Exception.{ReactionException, null_pointer_access_exception}
use reaction.Graph.State.{update}
use reaction.Memory.Impl.{Operation, impl_atomic_operation, compound_assign, step_value}
use reaction.Propagation.{Network, State, notify}

pub data AssignOp : Type 0 where
  add_assign subtract_assign multiply_assign divide_assign modulo_assign : AssignOp
  bitwise_and_assign bitwise_or_assign bitwise_xor_assign : AssignOp
  left_shift_assign right_shift_assign : AssignOp

-- Whether the language gives the operator a meaning on this right-hand side.
unfoldable pub is_defined : ℕ → AssignOp → ℕ → Bool
is_defined w add_assign rhs = true
is_defined w subtract_assign rhs = true
is_defined w multiply_assign rhs = true
is_defined w divide_assign rhs = not (nat_beq rhs 0)
is_defined w modulo_assign rhs = not (nat_beq rhs 0)
is_defined w bitwise_and_assign rhs = true
is_defined w bitwise_or_assign rhs = true
is_defined w bitwise_xor_assign rhs = true
is_defined w left_shift_assign rhs = ltb rhs w
is_defined w right_shift_assign rhs = ltb rhs w

-- The function objects `AddAssignOp` to `RightShiftAssignOp`, on `w` bits.
unfoldable pub apply_assign : ℕ → AssignOp → ℕ → ℕ → ℕ
apply_assign w add_assign lhs rhs = (lhs + rhs) % 2 ^ w
apply_assign w subtract_assign lhs rhs = (lhs + (2 ^ w - rhs % 2 ^ w)) % 2 ^ w
apply_assign w multiply_assign lhs rhs = (lhs * rhs) % 2 ^ w
apply_assign w divide_assign lhs rhs = lhs / rhs
apply_assign w modulo_assign lhs rhs = lhs % rhs
apply_assign w bitwise_and_assign lhs rhs = bit_and lhs rhs
apply_assign w bitwise_or_assign lhs rhs = bit_or lhs rhs
apply_assign w bitwise_xor_assign lhs rhs = bit_xor lhs rhs
apply_assign w left_shift_assign lhs rhs = (lhs * 2 ^ rhs) % 2 ^ w
apply_assign w right_shift_assign lhs rhs = lhs / 2 ^ rhs

pub data Step : Type 0 where
  pre_increment post_increment pre_decrement post_decrement : Step

unfoldable pub apply_step : ℕ → Step → ℕ → ℕ
apply_step w pre_increment v = (v + 1) % 2 ^ w
apply_step w post_increment v = (v + 1) % 2 ^ w
apply_step w pre_decrement v = (v + (2 ^ w - 1)) % 2 ^ w
apply_step w post_decrement v = (v + (2 ^ w - 1)) % 2 ^ w

-- What `atomicPostIncrement` and `atomicPostDecrement` return; the prefix forms return the handle.
unfoldable pub old_value : Step → ℕ → Option ℕ
old_value pre_increment v = none
old_value post_increment v = some v
old_value pre_decrement v = none
old_value post_decrement v = some v

-- How a call ends.
pub data Ending (S A : Type 0) : Type 0 where
  returned : A → S → Ending S A
  thrown : ReactionException → S → Ending S A
  undefined_behaviour no_fuel : Ending S A

unfoldable pub ended : {S A : Type 0} → A → Option S → Ending S A
ended a none = no_fuel
ended a (some s) = returned a s

unfoldable pub store : {V : Type 0} → ℕ → Option V → State V → State V
unfolding update
store n none s = s
store n (some v) s = record s { value = update s.value n v }

-- `atomicOperation` of a node, with the notification.
unfoldable pub atomic_operation :
    {V : Type 0} → Network V → ℕ → Bool → Bool → Operation V → ℕ → State V → Option (State V)
unfolding impl_atomic_operation store
atomic_operation net fuel batch_execute always_changed op n s =
    let (told, v) = impl_atomic_operation batch_execute always_changed op (some (s.value n)) in
    let s' = store n v s in if told then notify net fuel n true s' else some s'

module _ (w : ℕ) (net : Network ℕ) (alive : ℕ → Bool) (fuel : ℕ) (batch_execute : Bool) where
  -- `operator+=` to `operator>>=` of `React`; `getPtr` throws if the node is gone.
  unfoldable pub react_assign : AssignOp → ℕ → ℕ → State ℕ → Ending (State ℕ) (Option ℕ)
  unfolding is_defined apply_assign compound_assign atomic_operation ended
  react_assign op n rhs s =
      if alive n
      then if is_defined w op rhs
        then ended none (
            atomic_operation net fuel batch_execute false
              (compound_assign (some net.ne) (apply_assign w op) rhs) n s)
        else undefined_behaviour
      else thrown (null_pointer_access_exception "weak pointer lock failed") s

  -- `operator++` and `operator--` of `React`.
  unfoldable pub react_step : Step → ℕ → State ℕ → Ending (State ℕ) (Option ℕ)
  unfolding apply_step old_value step_value atomic_operation ended
  react_step step n s =
      if alive n
      then ended (old_value step (s.value n))
          (atomic_operation net fuel batch_execute true (step_value (apply_step w step)) n s)
      else thrown (null_pointer_access_exception "weak pointer lock failed") s

-- A call of one of these operators, with its right-hand side.
pub data Change : Type 0 where
  assigns : AssignOp → ℕ → Change
  steps : Step → Change

module _ (w : ℕ) where
  unfoldable pub has_meaning : Change → Bool
  unfolding is_defined
  has_meaning (assigns op rhs) = is_defined w op rhs
  has_meaning (steps step) = true

  unfoldable pub new_value : Change → ℕ → ℕ
  unfolding apply_assign apply_step
  new_value (assigns op rhs) v = apply_assign w op v rhs
  new_value (steps step) v = apply_step w step v

unfoldable pub answer_of : Change → ℕ → Option ℕ
unfolding old_value
answer_of (assigns op rhs) v = none
answer_of (steps step) v = old_value step v

unfoldable pub react_change :
    ℕ → Network ℕ → (ℕ → Bool) → ℕ → Bool → Change → ℕ → State ℕ → Ending (State ℕ) (Option ℕ)
unfolding react_assign react_step
react_change w net alive fuel batch_execute (assigns op rhs) n s =
    react_assign w net alive fuel batch_execute op n rhs s
react_change w net alive fuel batch_execute (steps step) n s =
    react_step w net alive fuel batch_execute step n s
