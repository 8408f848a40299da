-- ===== src/Threads/Steps/Tests.antt =====
-- Schedules of the thread manager (include/reaction/concurrency/thread_manager.h).
use reaction.Prelude.{ℕ, ◌≡◌, refl, true, false, some, List, [], ◌∷◌, ◌++◌, arith}
use reaction.Graph.State.{update}
use reaction.Threads.Steps.{
  register_call, ask_call, begin, finish, reply, access, System, new_system, Action, calls, moves,
  is_idle, perform, schedule,
}
use reaction.Threads.{next_version}
use reaction.Threads.Steps.Relies.{bumps}
use reaction.Threads.Steps.Answers.{asks_now, answers_lem, second_version-quiet}
use reaction.Threads.Steps.Progress.{turns, returns, wait_free_lem}

abbrev one_registers : List Action
one_registers = calls 0 register_call ∷ moves 0 ∷ moves 0 ∷ []

-- Two threads register, and the first asks up to its last access.
abbrev two_register : List Action
two_register =
    one_registers
    ++ (calls 1 register_call
        ∷ moves 1
        ∷ moves 1
        ∷ moves 1
        ∷ calls 0 ask_call
        ∷ moves 1
        ∷ moves 0
        ∷ [])

none_bumps : (i : ℕ) → bumps ((schedule two_register (new_system false)).worker i).place ≡ false
unfolding schedule begin access finish next_version update is_idle
none_bumps = second_version-quiet two_register refl

answers_lem_example :
    ((perform (moves 0) (schedule two_register (new_system false))).worker 0).answer ≡ some true
unfolding bumps schedule begin access finish update is_idle asks_now
answers_lem_example =
    answers_lem false two_register 0 1 0 (λ e. omega (arith, e)) refl refl none_bumps refl refl

-- Thread 0 and thread 1 change places before each access of the one.
abbrev in_turn : List Action
in_turn = moves 0 ∷ moves 1 ∷ moves 0 ∷ moves 1 ∷ moves 0 ∷ calls 0 ask_call ∷ moves 0 ∷ []

abbrev both_begin : System
both_begin =
    schedule (one_registers ++ (calls 1 register_call ∷ calls 2 register_call ∷ []))
      (new_system false)

wait_free_lem_example : returns 0 in_turn both_begin ≡ true
unfolding turns
wait_free_lem_example = wait_free_lem 0 in_turn both_begin (omega arith)

-- Thread 1 has turned safety on but has not changed the version when thread 2 registers: thread 0,
-- which asked before, is still told that safety is off, though two threads have registered.
abbrev early_third : List Action
early_third =
    one_registers
    ++ (calls 0 ask_call
        ∷ moves 0
        ∷ moves 0
        ∷ calls 1 register_call
        ∷ moves 1
        ∷ moves 1
        ∷ moves 1
        ∷ calls 2 register_call
        ∷ moves 2
        ∷ calls 0 ask_call
        ∷ moves 0
        ∷ [])

early_third_run :
    let s = schedule early_third (new_system false) in
    ((s.worker 0).answer ≡ some false)
    × ((s.worker 0).registered ≡ true)
    × ((s.worker 2).registered ≡ true)
    × (s.shared.enabled ≡ true)
unfolding schedule begin access finish reply update is_idle
early_third_run = (refl, refl, refl, refl)
