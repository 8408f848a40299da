-- ===== src/Memory/Tests.antt =====
-- A type of 24 bytes, whose place depends on the thread's account.
use reaction.Prelude.{ℕ, ◌+◌, ◌≡◌, refl, inr, true, false, not, some, nat_beq, arith}
use reaction.Memory.{TypeInfo, StackMonitor, initialize, always_sbo}
use reaction.Memory.Impl.{
  got, impl_get_value, impl_update_value, impl_get_raw, impl_atomic_operation, compound_assign,
}
use reaction.Memory.Sbo.{
  SboResource, in_buffer, on_heap, place_value, sbo_get_value, sbo_update_value,
  sbo_atomic_operation, sbo_get_raw, empty_union, destroy,
}
use reaction.Memory.Refines.{Represents, sbo_refines_lem, place_value_lem}

abbrev pub medium : TypeInfo ℕ
medium = record {
  size = 24;
  alignment = 8;
  max_sbo_alignment = 16;
  is_nothrow_movable = true;
  is_nothrow_destructible = true;
  is_specialized = false;
  ne = some (λ a b. not (nat_beq a b));
}

abbrev crowded : StackMonitor
crowded = record { current_usage = 65520; monitoring_enabled = true }

no_room_goes_to_heap : (place_value medium 5 crowded).0 ≡ on_heap 5
unfolding place_value
no_room_goes_to_heap = refl

room_goes_to_buffer : (place_value medium 5 initialize).0 ≡ in_buffer 5
unfolding place_value initialize
room_goes_to_buffer = refl

sbo_refines_lem_example :
    (sbo_get_value medium (on_heap 5) ≡ impl_get_value (some 5))
    × ((r' : SboResource ℕ) × ((sbo_update_value medium 6 (on_heap 5) crowded).0
          ≡ got ((impl_update_value medium 6 (some 5)).0, r'))
        × Represents medium r' (impl_update_value medium 6 (some 5)).1)
    × ((r' : SboResource ℕ) × (sbo_atomic_operation medium false false
            (compound_assign medium.ne ◌+◌ 2)
            (on_heap 5)
          ≡ got (
            (impl_atomic_operation false false (compound_assign medium.ne ◌+◌ 2) (some 5)).0,
            r',
          ))
        × Represents medium r'
            (impl_atomic_operation false false (compound_assign medium.ne ◌+◌ 2) (some 5)).1)
    × (sbo_get_raw medium (on_heap 5) ≡ impl_get_raw (some 5))
    × (destroy medium (on_heap 5) ≡ got (empty_union medium))
unfolding always_sbo
sbo_refines_lem_example =
    sbo_refines_lem medium (on_heap 5) (some 5) 6 crowded false false
      (compound_assign medium.ne ◌+◌ 2) (inr (refl, refl))

place_value_lem_example :
    Represents medium (place_value medium 5 initialize).0 (some 5)
    × ((place_value medium 5 initialize).1 ≡ initialize)
unfolding initialize
place_value_lem_example = place_value_lem medium 5 initialize (omega arith) (omega arith)
