-- ===== src/Globals/Tests.antt =====
-- Nested guards (include/reaction/concurrency/global_state.h).
use reaction.Prelude.{ℕ, ◌≡◌, refl, true, false, none, some, [], ◌∷◌}
use reaction.Globals.{
  Globals, Block, done, raise, observe, scoped, reg_fun_guard, batch_exe_guard, queries, run,
  reset_global_state,
}
use reaction.Globals.Scopes.{lexical, run-lexical}

-- No guard is active.
abbrev at_rest : Globals ℕ
at_rest = record { reg_fun = none; batch_fun = none; batch_execute = false }

-- A batch runs, tracks dependencies for a while, and throws.
abbrev nested : Block ℕ
nested =
    scoped (batch_exe_guard true)
      (observe (scoped (reg_fun_guard (some 5)) (observe done) (observe raise))) (observe done)

nested-run :
    run nested at_rest
    ≡ ((false, true, false) ∷ (true, true, false) ∷ (false, true, false) ∷ [], true, at_rest)
unfolding run
nested-run = refl

reset_run :
    queries (reset_global_state (record at_rest { batch_execute = true })) ≡ (false, false, false)
unfolding queries reset_global_state
reset_run = refl

run-lexical_example :
    run nested at_rest ≡ ((lexical nested at_rest).0, (lexical nested at_rest).1, at_rest)
run-lexical_example = run-lexical nested at_rest
