-- ===== src/Propagation/Tests.antt =====
-- A variable, a calculation that reads it, and one that reads both, on concrete values.
use reaction.Prelude.{
  ℕ, zero, suc, ◌+◌, ◌<◌, ◌≡◌, ◌≢◌, refl, sym, ap, Bool, true, false, not, Option, none, some, List,
  [], ◌∷◌, nat_beq, nat_beq_iff, mem, arith,
}
use mathlib.Core.Bool.{true≢false}
use reaction.Propagation.{change_trig, Kind, var_node, calc_node, Network, State, notify, set_value}
use reaction.Propagation.Settle.{IsSensible}
use reaction.Propagation.Correct.{IsSettled, set_value_lem}

-- Everything that a run computes with.
runs : Unit {0}
unfolding set_value mem
runs = tt

-- Node 1 computes the value of node 0 plus one, node 2 the sum of the two.
abbrev pub readers : ℕ → List ℕ
readers zero = 2 ∷ 1 ∷ []
readers (suc zero) = 2 ∷ []
readers (suc (suc n)) = []

abbrev pub kinds : ℕ → Kind
kinds zero = var_node
kinds (suc n) = calc_node

abbrev pub funs : ℕ → (ℕ → ℕ) → ℕ
funs zero v = 0
funs (suc zero) v = v 0 + 1
funs (suc (suc zero)) v = v 0 + v 1
funs (suc (suc (suc n))) v = 0

abbrev pub start_values : ℕ → ℕ
start_values zero = 3
start_values (suc zero) = 4
start_values (suc (suc zero)) = 7
start_values (suc (suc (suc n))) = 0

abbrev pub diamond : Network ℕ
diamond = record {
  observers = readers;
  kind = kinds;
  trigger = λ n. change_trig;
  fun = funs;
  ne = λ a b. not (nat_beq a b);
}

abbrev pub start : State ℕ
start = record { value = start_values; changed = λ n. false }

values_after : Option (State ℕ) → List ℕ
values_after none = []
values_after (some s) = s.value 0 ∷ s.value 1 ∷ s.value 2 ∷ []

diamond_run : values_after (set_value diamond 3 false 0 5 start) ≡ 5 ∷ 6 ∷ 11 ∷ []
unfolding runs values_after notify
diamond_run = refl

same_value_run : values_after (set_value diamond 3 false 0 3 start) ≡ 3 ∷ 4 ∷ 7 ∷ []
unfolding runs values_after notify
same_value_run = refl

abbrev pub rank : ℕ → ℕ
rank zero = 2
rank (suc zero) = 1
rank (suc (suc n)) = 0

same_reads :
    (n : ℕ) (v w : ℕ → ℕ) → ((d : ℕ) → mem n (readers d) ≡ true → v d ≡ w d) → funs n v ≡ funs n w
unfolding mem
same_reads zero v w h = refl
same_reads (suc zero) v w h = ap (λ x. x + 1) (h 0 refl)
same_reads (suc (suc zero)) v w h = rw (h 0 refl, h 1 refl)
same_reads (suc (suc (suc n))) v w h = refl

reads_not_itself : (n : ℕ) → mem n (readers n) ≡ false
unfolding mem
reads_not_itself zero = refl
reads_not_itself (suc zero) = refl
reads_not_itself (suc (suc n)) = refl

same_of_not_ne : (a b : ℕ) → not (nat_beq a b) ≡ false → a ≡ b
same_of_not_ne a b e = (nat_beq_iff a b).0 (positive (nat_beq a b) e)
  where
    positive : (t : Bool) → not t ≡ false → t ≡ true
    positive true e = refl
    positive false e = sym e

pub diamond-IsSensible : IsSensible diamond
diamond-IsSensible = record {
  reads = same_reads;
  no_loop = reads_not_itself;
  ne_false = same_of_not_ne;
}

pub rank_falls : (n o : ℕ) → mem o (readers n) ≡ true → rank o < rank n
unfolding mem
rank_falls zero zero m = absurd (true≢false (sym m))
rank_falls zero (suc zero) m = omega arith
rank_falls zero (suc (suc o)) m = omega arith
rank_falls (suc zero) zero m = absurd (true≢false (sym m))
rank_falls (suc zero) (suc zero) m = absurd (true≢false (sym m))
rank_falls (suc zero) (suc (suc o)) m = omega arith
rank_falls (suc (suc n)) o m = absurd (true≢false (sym m))

pub start-IsSettled : IsSettled diamond start
start-IsSettled zero t = absurd (apart t.0)
  where
    apart : var_node ≢ calc_node
    apart p = cc
start-IsSettled (suc zero) t = refl
start-IsSettled (suc (suc zero)) t = refl
start-IsSettled (suc (suc (suc n))) t = refl

set_value_lem_example :
    (s' : State ℕ) × (set_value diamond 3 false 0 5 start ≡ some s')
    × IsSettled diamond s'
    × (s'.value 0 ≡ 5)
    × ((m : ℕ) → m ≢ 0 → kinds m ≡ var_node → s'.value m ≡ start_values m)
set_value_lem_example =
    set_value_lem diamond rank 3 0 5 start diamond-IsSensible (record { falls = rank_falls })
      (omega arith) refl start-IsSettled
