-- ===== src/UniqueId/Distinct.antt =====
-- When the ids of include/reaction/core/id_generator.h differ, and when they do not.
use reaction.Prelude.{
  ℕ, ◌+◌, ◌^◌, ◌%◌, ◌<◌, ◌≡◌, ◌≢◌, sym, ap, ◌∙◌, inl, inr, true, false, List, [], ◌∷◌, mem, length,
  arith, Bool-cases,
}
use mathlib.Core.Path.{subst}
use mathlib.Core.Bool.{true≢false}
use reaction.Graph.State.{update, update_here, update_away}
use reaction.UniqueId.{Ids, no_ids, read_counter, write_counter, generate, generate_all}

abbrev pub NoRepeat : List ℕ → Type 0
NoRepeat [] = Unit {0}
NoRepeat (x ∷ xs) = (mem x xs ≡ false) × NoRepeat xs

-- No id was given twice, and all are below the counter.
pub record IsFresh (s : Ids) : Type 0 where
  pub distinct : NoRepeat s.given
  pub below : (i : ℕ) → mem i s.given ≡ true → i < s.counter

generate-counter : (t : ℕ) (s : Ids) → (generate t s).counter ≡ (s.counter + 1) % 2 ^ 64
unfolding generate read_counter write_counter
generate-counter t s = ap (λ c. (c + 1) % 2 ^ 64) (update_here s.seen t s.counter)

generate-given : (t : ℕ) (s : Ids) → (generate t s).given ≡ (s.counter ∷ s.given)
unfolding generate read_counter write_counter
generate-given t s = ap (λ c. c ∷ s.given) (update_here s.seen t s.counter)

generate-IsFresh : (t : ℕ) (s : Ids) → s.counter + 1 < 2 ^ 64 → IsFresh s → IsFresh (generate t s)
unfolding mem
generate-IsFresh t s fits k = record {
  distinct = subst NoRepeat (sym (generate-given t s)) (unused, k.distinct);
  below = λ i m.
      subst (λ c. i < c) (sym counted)
        (either i (subst (λ l. mem i l ≡ true) (generate-given t s) m));
}
  where
    counted : (generate t s).counter ≡ s.counter + 1
    counted = generate-counter t s ∙ omega (arith, fits)

    unused : mem s.counter s.given ≡ false
    unused = elim (Bool-cases (mem s.counter s.given)) [
      | inl used ↦ absurd (not_less (k.below s.counter used))
      | inr free ↦ free
    ]
      where
        not_less : {n : ℕ} → ¬ (n < n)
        not_less h = omega (arith, h)

    either : (i : ℕ) → mem i (s.counter ∷ s.given) ≡ true → i < s.counter + 1
    either i m = elim (Bool-cases (mem i s.given)) [
      | inl old ↦ omega (arith, k.below i old)
      | inr new ↦ ground (arith, m, new)
    ]

generate_all-IsFresh :
    (ts : List ℕ) (s : Ids)
    → s.counter + length ts < 2 ^ 64
    → IsFresh s
    → IsFresh (generate_all ts s)
unfolding generate_all
generate_all-IsFresh [] s fits k = k
generate_all-IsFresh (t ∷ ts) s fits k =
    generate_all-IsFresh ts (generate t s) (omega (arith, fits, generate-counter t s))
      (generate-IsFresh t s (omega (arith, fits)) k)

-- Calls that do not overlap, of any threads, fewer than 2 ^ 64 of them, never give an id twice.
pub generate_all_lem : (ts : List ℕ) → length ts < 2 ^ 64 → NoRepeat (generate_all ts no_ids).given
unfolding mem
generate_all_lem ts fits =
    (generate_all-IsFresh ts no_ids (omega (arith, fits))
      (record { distinct = tt; below = λ i m. absurd (true≢false (sym m)) })).distinct

-- Two threads that both read the counter before either writes it get the same id, whatever the
-- counter is.
pub race_lem :
    (a b : ℕ) (s : Ids)
    → a ≢ b
    → (write_counter b (write_counter a (read_counter b (read_counter a s)))).given
      ≡ (s.counter ∷ s.counter ∷ s.given)
unfolding write_counter read_counter
race_lem a b s apart =
    ap (λ c. c ∷ late a ∷ s.given) (update_here (update s.seen a s.counter) b s.counter)
    ∙ ap (λ c. s.counter ∷ c ∷ s.given)
        (update_away (update s.seen a s.counter) b a s.counter apart
          ∙ update_here s.seen a s.counter)
  where
    late : ℕ → ℕ
    late = update (update s.seen a s.counter) b s.counter
