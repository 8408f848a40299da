-- ===== src/Assign/Tests.antt =====
-- Operators on handles, on the diamond of three nodes of Propagation/Tests
-- (include/reaction/core/react.h).
use reaction.Prelude.{ℕ, ◌≡◌, ◌≢◌, refl, true, false, some, arith}
use reaction.Propagation.{var_node, State}
use reaction.Propagation.Correct.{IsSettled}
use reaction.Propagation.Tests.{
  diamond, kinds, start, start_values, rank, rank_falls, diamond-IsSensible, start-IsSettled,
}
use reaction.Assign.{
  subtract_assign, bitwise_and_assign, left_shift_assign, divide_assign, post_decrement, steps,
  returned, react_change, new_value, has_meaning, answer_of, apply_assign, is_defined,
}
use reaction.Assign.Correct.{react_change_lem}

-- The value wraps around.
subtract_run : apply_assign 8 subtract_assign 3 5 ≡ 254
unfolding apply_assign
subtract_run = refl

and_run : apply_assign 8 bitwise_and_assign 12 10 ≡ 8
unfolding apply_assign
and_run = refl

shift_run : apply_assign 8 left_shift_assign 200 1 ≡ 144
unfolding apply_assign
shift_run = refl

divide_run : is_defined 8 divide_assign 0 ≡ false
unfolding is_defined
divide_run = refl

react_change_lem_example :
    (s' : State ℕ) × (react_change 32 diamond (λ n. true) 3 false (steps post_decrement) 0 start
      ≡ returned (some 3) s')
    × IsSettled diamond s'
    × (s'.value 0 ≡ 2)
    × ((m : ℕ) → m ≢ 0 → kinds m ≡ var_node → s'.value m ≡ start_values m)
unfolding new_value has_meaning answer_of
react_change_lem_example =
    react_change_lem 32 diamond (λ n. true) rank 3 (steps post_decrement) 0 start diamond-IsSensible
      (record { falls = rank_falls }) (omega arith) refl refl refl start-IsSettled
