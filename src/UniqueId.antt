-- ===== src/UniqueId.antt =====
-- `UniqueID` (include/reaction/core/id_generator.h).
pub mod Distinct
pub mod Tests
use reaction.Prelude.{ℕ, ◌+◌, ◌^◌, ◌%◌, Option, none, some, List, [], ◌∷◌}
use reaction.Graph.State.{update}

-- The static counter, what each thread has read of it, and the ids given so far. The counter is a
-- plain integer, so a call is two steps: a thread reads it, then writes it and returns.
pub record Ids : Type 0 where
  pub counter : ℕ
  pub seen : ℕ → ℕ
  pub given : List ℕ

abbrev pub no_ids : Ids
no_ids = record { counter = 0; seen = λ t. 0; given = [] }

unfoldable pub read_counter : ℕ → Ids → Ids
unfolding update
read_counter t s = record s { seen = update s.seen t s.counter }

unfoldable pub write_counter : ℕ → Ids → Ids
write_counter t s = record s { counter = (s.seen t + 1) % 2 ^ 64; given = s.seen t ∷ s.given }

-- `generate`, undisturbed.
unfoldable pub generate : ℕ → Ids → Ids
unfolding read_counter write_counter
generate t s = write_counter t (read_counter t s)

-- Calls of these threads, one after the other.
unfoldable pub generate_all : List ℕ → Ids → Ids
unfolding generate
generate_all [] s = s
generate_all (t ∷ ts) s = generate_all ts (generate t s)
