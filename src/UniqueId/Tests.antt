-- ===== src/UniqueId/Tests.antt =====
-- Ids for two threads (include/reaction/core/id_generator.h).
use reaction.Prelude.{ℕ, ◌≡◌, ◌≢◌, refl, [], ◌∷◌, arith}
use reaction.UniqueId.{no_ids, read_counter, write_counter, generate_all}
use reaction.UniqueId.Distinct.{NoRepeat, generate_all_lem, race_lem}

in_turn : (generate_all (1 ∷ 2 ∷ 1 ∷ []) no_ids).given ≡ (2 ∷ 1 ∷ 0 ∷ [])
unfolding generate_all
in_turn = refl

generate_all_lem_example : NoRepeat (generate_all (1 ∷ 2 ∷ 1 ∷ []) no_ids).given
generate_all_lem_example = generate_all_lem (1 ∷ 2 ∷ 1 ∷ []) (omega arith)

apart : ◌≢◌ {A = ℕ} 1 2
apart e = omega arith

race_lem_example :
    (write_counter 2 (write_counter 1 (read_counter 2 (read_counter 1 no_ids)))).given
    ≡ (0 ∷ 0 ∷ [])
race_lem_example = race_lem 1 2 no_ids apart
