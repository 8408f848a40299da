-- ===== src/Memory.antt =====
-- When a value is kept in the node itself (include/reaction/memory/memory_config.h) and the
-- thread's account of the stack so used (include/reaction/memory/stack_monitor.h).
pub mod Sbo
pub mod Impl
pub mod Refines
pub mod Tests
use reaction.Prelude.{
  ℕ, ◌+◌, ◌-◌, ◌*◌, ◌%◌, ◌^◌, Bool, true, false, not, ◌&&◌, ◌||◌, Option, if◌then◌else◌, ltb, leb,
}

-- `SBOConfig`; `MAX_SBO_ALIGNMENT` is the platform's `alignof(std::max_align_t)`, a field of
-- `TypeInfo`.
abbrev pub always_sbo_size : ℕ
always_sbo_size = 16

abbrev pub conditional_sbo_size : ℕ
conditional_sbo_size = 32

abbrev pub max_sbo_size : ℕ
max_sbo_size = 64

abbrev pub max_sbo_stack_usage : ℕ
max_sbo_stack_usage = 65536

abbrev pub stack_usage_warning : ℕ
stack_usage_warning = 32768

-- What the templates ask of a type. `is_specialized` holds of the strings, vectors and hash maps,
-- for which `SBOTraits` is specialised; `ne` is there for the types that can be compared.
pub record TypeInfo (V : Type 0) : Type 0 where
  pub size : ℕ
  pub alignment : ℕ
  pub max_sbo_alignment : ℕ
  pub is_nothrow_movable : Bool
  pub is_nothrow_destructible : Bool
  pub is_specialized : Bool
  pub ne : Option (V → V → Bool)

module _ {V : Type 0} (t : TypeInfo V) where
  unfoldable pub is_sbo_eligible : Bool
  is_sbo_eligible =
      if t.is_specialized
      then false
      else (leb t.size max_sbo_size && leb t.alignment t.max_sbo_alignment)
        && (t.is_nothrow_movable && t.is_nothrow_destructible)

  unfoldable pub always_sbo : Bool
  unfolding is_sbo_eligible
  always_sbo = leb t.size always_sbo_size && is_sbo_eligible

  unfoldable pub conditional_sbo : Bool
  unfolding is_sbo_eligible
  conditional_sbo =
      (leb t.size conditional_sbo_size && ltb always_sbo_size t.size) && is_sbo_eligible

  unfoldable pub force_heap : Bool
  unfolding is_sbo_eligible
  force_heap = not is_sbo_eligible || ltb max_sbo_size t.size

-- `StackMonitor`: the two `thread_local` variables.
pub record StackMonitor : Type 0 where
  pub current_usage : ℕ
  pub monitoring_enabled : Bool

-- The values of the variables at the start of a thread.
unfoldable pub new_monitor : StackMonitor
new_monitor = record { current_usage = 0; monitoring_enabled = false }

unfoldable pub initialize : StackMonitor
initialize = record { current_usage = 0; monitoring_enabled = true }

-- `canAllocate`; the sum is of type `size_t`.
unfoldable pub can_allocate : ℕ → StackMonitor → Bool
can_allocate size m =
    if m.monitoring_enabled
    then leb ((m.current_usage + size) % 2 ^ 64) max_sbo_stack_usage
    else leb size conditional_sbo_size

-- The constructor of `StackGuard` and its destructor: whether the memory was allocated.
unfoldable pub guard_begin : ℕ → StackMonitor → Bool × StackMonitor
unfolding can_allocate
guard_begin size m =
    if can_allocate size m
    then (true, record m { current_usage = (m.current_usage + size) % 2 ^ 64 })
    else (false, m)

unfoldable pub guard_end : ℕ → Bool → StackMonitor → StackMonitor
guard_end size allocated m =
    if allocated then record m { current_usage = (m.current_usage + 2 ^ 64 - size) % 2 ^ 64 } else m

unfoldable pub set_monitoring_enabled : Bool → StackMonitor → StackMonitor
set_monitoring_enabled enabled m =
    if enabled
    then record m { monitoring_enabled = true }
    else record { current_usage = 0; monitoring_enabled = false }

-- `UsageStats`, without the percentage, which is a floating-point number.
pub record UsageStats : Type 0 where
  pub usage : ℕ
  pub max_allowed : ℕ
  pub near_limit : Bool

unfoldable pub get_stats : StackMonitor → UsageStats
get_stats m = record {
  usage = m.current_usage;
  max_allowed = max_sbo_stack_usage;
  near_limit = leb stack_usage_warning m.current_usage;
}
