-- ===== src/Globals.antt =====
-- The thread-local variables of include/reaction/concurrency/global_state.h and the guards that
-- set them for a scope. `F` is the type of the callables, `std::function<void(const NodePtr &)>`.
pub mod Scopes
pub mod Tests
use reaction.Prelude.{
  Bool, true, false, not, Option, none, List, [], ◌∷◌, ◌++◌, if◌then◌else◌, is_some,
}

pub record Globals (F : Type 0) : Type 0 where
  pub reg_fun : Option F
  pub batch_fun : Option F
  pub batch_execute : Bool

-- What a guard is made with, or has saved: a value for one of the variables.
pub data Guard (F : Type 0) : Type 0 where
  reg_fun_guard batch_fun_guard : Option F → Guard F
  batch_exe_guard : Bool → Guard F

-- What a scope does: it asks for the state, throws, ends, or opens a scope and then goes on.
pub data Block (F : Type 0) : Type 0 where
  done raise : Block F
  observe : Block F → Block F
  scoped : Guard F → Block F → Block F → Block F

module _ {F : Type 0} where
  unfoldable pub is_dependency_tracking_active : Globals F → Bool
  is_dependency_tracking_active g = is_some g.reg_fun

  unfoldable pub is_batch_active : Globals F → Bool
  is_batch_active g = g.batch_execute

  unfoldable pub is_batch_function_active : Globals F → Bool
  is_batch_function_active g = is_some g.batch_fun

  unfoldable pub reset_global_state : Globals F → Globals F
  reset_global_state g = record { reg_fun = none; batch_fun = none; batch_execute = false }

  -- The write to the variable that a guard is bound to.
  unfoldable pub assign_target : Guard F → Globals F → Globals F
  assign_target (reg_fun_guard f) g = record g { reg_fun = f }
  assign_target (batch_fun_guard f) g = record g { batch_fun = f }
  assign_target (batch_exe_guard b) g = record g { batch_execute = b }

  -- `old_`: what the variable held when the guard was made.
  unfoldable pub saved : Guard F → Globals F → Guard F
  saved (reg_fun_guard f) g = reg_fun_guard g.reg_fun
  saved (batch_fun_guard f) g = batch_fun_guard g.batch_fun
  saved (batch_exe_guard b) g = batch_exe_guard g.batch_execute

  -- The answers of the three queries.
  unfoldable pub queries : Globals F → Bool × Bool × Bool
  unfolding is_dependency_tracking_active is_batch_active is_batch_function_active
  queries g = (is_dependency_tracking_active g, is_batch_active g, is_batch_function_active g)

  -- What comes after a scope: nothing, if it threw.
  unfoldable pub go_on :
      List (Bool × Bool × Bool)
      → Bool
      → Globals F
      → (Globals F → List (Bool × Bool × Bool) × Bool × Globals F)
      → List (Bool × Bool × Bool) × Bool × Globals F
  go_on seen thrown g k =
      if thrown then (seen, true, g) else let (more, t, g') = k g in (seen ++ more, t, g')

  -- A block with its guards as `ScopedValue`: the answers seen, whether it threw, and the
  -- variables it leaves. The destructor runs on a throw as well.
  unfoldable pub run : Block F → Globals F → List (Bool × Bool × Bool) × Bool × Globals F
  unfolding queries assign_target saved go_on
  run done g = ([], false, g)
  run raise g = ([], true, g)
  run (observe k) g = let (seen, t, g') = run k g in (queries g ∷ seen, t, g')
  run (scoped guard inner k) g =
      let old = saved guard g in
      let (seen, t, g') = run inner (assign_target guard g) in
      go_on seen t (assign_target old g') (run k)
