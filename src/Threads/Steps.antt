-- ===== src/Threads/Steps.antt =====
-- `ThreadManager` (include/reaction/concurrency/thread_manager.h), one access to the shared members
-- at a time: the steps of the calls of several threads come in any order. Each access sees the last
-- write.
pub mod Relies
pub mod Phases
pub mod Steady
pub mod Stays
pub mod Answers
pub mod Progress
pub mod Tests
use reaction.Prelude.{
  ℕ, ◌+◌, Bool, true, false, ◌||◌, Option, none, some, List, [], ◌∷◌, if◌then◌else◌, nat_beq,
}
use reaction.Graph.State.{update}
use reaction.Threads.{next_version}

-- The members of the manager.
pub record Shared : Type 0 where
  pub enabled : Bool
  pub first_thread_id : Option ℕ
  pub safety_version : ℕ

-- Where a thread stands: before its next access. A call of `enableThreadSafety` stands alone, or
-- ends one of `registerThread`.
pub data Place : Type 0 where
  idle checking claiming asking : Place
  enabling bumping : Bool → Place
  loading : ℕ → Place

-- The `thread_local` variables of a thread, its place, and what its last query answered.
pub record Worker : Type 0 where
  pub registered : Bool
  pub cached_enabled : Bool
  pub cached_version : ℕ
  pub place : Place
  pub answer : Option Bool

pub data Call : Type 0 where
  register_call enable_call ask_call : Call

-- The part of a call before its first shared access.
unfoldable pub begin : Call → Worker → Worker
begin register_call w = if w.registered then w else record w { place = checking }
begin enable_call w = record w { place = enabling false }
begin ask_call w = record w { place = asking }

-- The end of a call that registers, or not.
unfoldable pub finish : Bool → Worker → Worker
finish registers w = record w { registered = registers || w.registered; place = idle }

unfoldable pub reply : Bool → Worker → Worker
reply b w = record w { answer = some b; place = idle }

-- The next access of thread `t`, and what follows it up to the one after.
unfoldable pub access : ℕ → Place → Shared → Worker → Shared × Worker
unfolding finish reply next_version
access t idle m w = (m, w)
access t checking m w = if m.enabled then (m, finish true w) else (m, record w { place = claiming })
access t claiming m w = elim m.first_thread_id [
  | none ↦ (record m { first_thread_id = some t }, finish true w)
  | some u ↦ if nat_beq u t then (m, finish true w) else (m, record w { place = enabling true })
]
access t (enabling registers) m w =
    if m.enabled
    then (m, finish registers w)
    else (record m { enabled = true }, record w { place = bumping registers })
access t (bumping registers) m w =
    (record m { safety_version = next_version m.safety_version }, finish registers w)
access t asking m w =
    if nat_beq w.cached_version m.safety_version
    then (m, reply w.cached_enabled w)
    else (m, record w { place = loading m.safety_version })
access t (loading version) m w =
    (m, reply m.enabled (record w { cached_enabled = m.enabled; cached_version = version }))

pub record System : Type 0 where
  pub shared : Shared
  pub worker : ℕ → Worker

abbrev pub fresh_worker : Worker
fresh_worker = record {
  registered = false;
  cached_enabled = false;
  cached_version = 0;
  place = idle;
  answer = none;
}

-- `mode` is `REACTION_THREAD_SAFETY_MODE`.
abbrev pub new_system : Bool → System
new_system mode = record {
  shared = record { enabled = mode; first_thread_id = none; safety_version = 1 };
  worker = λ t. fresh_worker;
}

-- A thread that is in no call begins one, or a thread makes its next access.
pub data Action : Type 0 where
  calls : ℕ → Call → Action
  moves : ℕ → Action

unfoldable pub is_idle : Place → Bool
is_idle idle = true
is_idle checking = false
is_idle claiming = false
is_idle asking = false
is_idle (enabling r) = false
is_idle (bumping r) = false
is_idle (loading v) = false

unfoldable pub perform : Action → System → System
unfolding begin access update is_idle
perform (calls t c) s = record s {
  worker =
      update s.worker t (if is_idle (s.worker t).place then begin c (s.worker t) else s.worker t);
}
perform (moves t) s =
    let (m, w) = access t (s.worker t).place s.shared (s.worker t) in
    record { shared = m; worker = update s.worker t w }

-- The threads run by a schedule.
unfoldable pub schedule : List Action → System → System
unfolding perform
schedule [] s = s
schedule (a ∷ rest) s = schedule rest (perform a s)
