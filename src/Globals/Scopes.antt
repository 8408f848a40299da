-- ===== src/Globals/Scopes.antt =====
-- The guards of include/reaction/concurrency/global_state.h make the thread-local variables scoped.
use reaction.Prelude.{◌≡◌, refl, Bool, true, false, List, [], ◌∷◌, ◌++◌}
use reaction.Globals.{
  Globals, Guard, reg_fun_guard, batch_fun_guard, batch_exe_guard, Block, done, raise, observe,
  scoped, assign_target, saved, queries, go_on, run,
}

-- What a scope has seen, and whether it threw.
abbrev pub Outcome : Type 0
Outcome = List (Bool × Bool × Bool) × Bool

-- What comes after a scope that may have thrown.
unfoldable join : Outcome → Outcome → Outcome
join (seen, true) rest = (seen, true)
join (seen, false) (more, t) = (seen ++ more, t)

module _ {F : Type 0} where
  -- The reference: the value of a guard holds in its scope and nowhere else, and nothing is
  -- written.
  unfoldable pub lexical : Block F → Globals F → Outcome
  unfolding queries assign_target join
  lexical done g = ([], false)
  lexical raise g = ([], true)
  lexical (observe k) g = let (seen, t) = lexical k g in (queries g ∷ seen, t)
  lexical (scoped guard inner k) g = join (lexical inner (assign_target guard g)) (lexical k g)

  restored :
      (guard : Guard F) (g : Globals F) → assign_target (saved guard g) (assign_target guard g) ≡ g
  unfolding assign_target saved
  restored (reg_fun_guard f) g = refl
  restored (batch_fun_guard f) g = refl
  restored (batch_exe_guard b) g = refl

  rejoin :
      (r o : Outcome) (g : Globals F) (k : Globals F → List (Bool × Bool × Bool) × Bool × Globals F)
      → k g ≡ (o.0, o.1, g)
      → go_on r.0 r.1 g k ≡ ((join r o).0, (join r o).1, g)
  unfolding go_on join
  rejoin (seen, true) o g k e = refl
  rejoin (seen, false) o g k e = rw e

  -- Every block of nested guards, which may throw anywhere, sees what lexical scoping gives it,
  -- throws if that does, and leaves the variables as they were.
  pub run-lexical : (b : Block F) (g : Globals F) → run b g ≡ ((lexical b g).0, (lexical b g).1, g)
  unfolding run lexical
  run-lexical done g = refl
  run-lexical raise g = refl
  run-lexical (observe k) g = rw (run-lexical k g)
  run-lexical (scoped guard inner k) g =
      rw (run-lexical inner (assign_target guard g), restored guard g)
        (rejoin (lexical inner (assign_target guard g)) (lexical k g) g (run k) (run-lexical k g))
