-- ===== src/AgentGuard/Monitor/Loop/Progress.antt =====
-- The loop of the tracer: when it ends, and that no process stays stopped.
use agent_guard_fast_path.Common.{
  ℕ, ◌≡◌, refl, sym, subst, Bool, true, false, not, Option, none, some, List, [], ◌∷◌, ◌++◌, arith,
  if◌then◌else◌, Bool-cases, inl, inr, ◌⊎◌, ℤ, int_eq,
}
use agent_guard_fast_path.AgentGuard.Config.{Config}
use agent_guard_fast_path.AgentGuard.Config.Evaluate.{ag_config_get_policy_for_process}
use agent_guard_fast_path.AgentGuard.Monitor.{mon_stopped, Command}
use agent_guard_fast_path.AgentGuard.Monitor.Handle.{Regs, Stop, State, counted}
use agent_guard_fast_path.AgentGuard.Monitor.Handle.Decide.{with_regs, ag_monitor_handle_syscall}
use agent_guard_fast_path.AgentGuard.Monitor.Handle.Mediation.{decide-target}
use agent_guard_fast_path.AgentGuard.Monitor.Loop.{
  Wait, failed, exited, killed, stopped_by, other, Round, Run, on_signal, on_wait, end_run,
  monitor_loop,
}

-- The loop ends in this round: the program was told to end, `waitpid` failed for good, or the process
-- with this number is gone.
unfoldable pub ends : ℤ → Wait → Bool
ends target (failed interrupted) = not interrupted
ends target (exited pid) = int_eq pid target
ends target (killed pid) = int_eq pid target
ends target (stopped_by sig stop) = false
ends target (other pid) = false

unfoldable pub some_ends : ℤ → List Round → Bool
some_ends target [] = false
some_ends target (r ∷ rounds) =
    let rest = some_ends target rounds in
    if not r.running then true else if ends target r.wait then true else rest

with_regs-target :
    (config : Config) (stop : Stop) (st : State) (regs : Option Regs)
    → (with_regs config stop st regs).state.monitor.target_pid ≡ st.monitor.target_pid
unfolding with_regs counted
with_regs-target config stop st none = refl
with_regs-target config stop st (some r) =
    decide-target (ag_config_get_policy_for_process config stop.comm) stop r (counted stop.now st)

on_signal-target :
    (config : Config) (st : State) (sig : ℕ) (stop : Stop)
    → (on_signal config st sig stop).0.monitor.target_pid ≡ st.monitor.target_pid
unfolding on_signal ag_monitor_handle_syscall
on_signal-target config st sig stop = ground (arith, with_regs-target config stop st stop.regs)

-- One round goes on or ends.
pub on_wait-ends :
    (config : Config) (st : State) (w : Wait)
    → ((on_wait config st w ≡ none) × (ends st.monitor.target_pid w ≡ true))
      ⊎ ((next : State × List Command) × (on_wait config st w ≡ some next)
          × (ends st.monitor.target_pid w ≡ false)
          × (next.0.monitor.target_pid ≡ st.monitor.target_pid))
unfolding on_wait ends
on_wait-ends config st (failed true) = inr ((st, []), refl, refl, refl)
on_wait-ends config st (failed false) = inl (refl, refl)
on_wait-ends config st (exited pid) = elim (Bool-cases (int_eq pid st.monitor.target_pid)) [
  | inl e ↦ inl (rw e refl, e)
  | inr e ↦ inr ((st, []), rw e refl, e, refl)
]
on_wait-ends config st (killed pid) = elim (Bool-cases (int_eq pid st.monitor.target_pid)) [
  | inl e ↦ inl (rw e refl, e)
  | inr e ↦ inr ((st, []), rw e refl, e, refl)
]
on_wait-ends config st (stopped_by sig stop) =
    inr (on_signal config st sig stop, refl, refl, on_signal-target config st sig stop)
on_wait-ends config st (other pid) = inr ((st, []), refl, refl, refl)

-- The three ways of a round.
module _ (config : Config) (st : State) (r : Round) (rounds : List Round) where
  pub loop_told : r.running ≡ false → monitor_loop config st (r ∷ rounds) ≡ end_run st
  unfolding monitor_loop
  loop_told e = ground (arith, e)

  pub loop_breaks :
      r.running ≡ true
      → on_wait config st r.wait ≡ none
      → monitor_loop config st (r ∷ rounds) ≡ end_run st
  unfolding monitor_loop
  loop_breaks e h = ground (arith, e, h)

  pub loop_goes_on :
      (next : State × List Command)
      → r.running ≡ true
      → on_wait config st r.wait ≡ some next
      → monitor_loop config st (r ∷ rounds) ≡ record (monitor_loop config next.0 rounds) {
        commands = next.1 ++ (monitor_loop config next.0 rounds).commands;
      }
  unfolding monitor_loop
  loop_goes_on next e h = ground (arith, e, h)

-- How a run ends, if it does.
abbrev pub Ending : ℤ → List Round → Run → Type 0
Ending target rounds run =
    ((run.finished ≡ true)
      × (some_ends target rounds ≡ true)
      × (run.state.monitor.state ≡ mon_stopped))
    ⊎ ((run.finished ≡ false) × (some_ends target rounds ≡ false))

end_run-Ending :
    (target : ℤ) (rounds : List Round) (st : State)
    → some_ends target rounds ≡ true
    → Ending target rounds (end_run st)
unfolding end_run
end_run-Ending target rounds st e = inl (refl, e, refl)

-- The loop is finished as soon as a round ends it, and not before: when the program is told to end, when
-- `waitpid` fails for another reason than a signal, or when the traced process is gone. The end of
-- another process, a stop or an interruption do not end it. The monitor that is finished is stopped.
pub monitor_loop-Ending :
    (config : Config) (st : State) (rounds : List Round)
    → Ending st.monitor.target_pid rounds (monitor_loop config st rounds)
unfolding some_ends
monitor_loop-Ending config st [] = unfold monitor_loop in inr (refl, refl)
monitor_loop-Ending config st (r ∷ rounds) =
    let target = st.monitor.target_pid in
    elim (Bool-cases r.running) [
      | inr e ↦
          subst (Ending target (r ∷ rounds)) (sym (loop_told config st r rounds e))
            (end_run-Ending target (r ∷ rounds) st (ground (arith, e)))
      | inl e ↦ elim (on_wait-ends config st r.wait) [
        | inl (breaks, h) ↦
            subst (Ending target (r ∷ rounds)) (sym (loop_breaks config st r rounds e breaks))
              (end_run-Ending target (r ∷ rounds) st (ground (arith, e, h)))
        | inr (next, goes, h, same) ↦
            subst (Ending target (r ∷ rounds)) (sym (loop_goes_on config st r rounds next e goes))
              (elim (subst (λ (t : ℤ). Ending t rounds (monitor_loop config next.0 rounds)) same
                (monitor_loop-Ending config next.0 rounds)) [
                  | inl (fin, found, state) ↦ inl (fin, ground (arith, e, h, found), state)
                  | inr (fin, found) ↦ inr (fin, ground (arith, e, h, found))
                ])
      ]
    ]
