-- ===== src/AgentGuard/Monitor/Loop.antt =====
-- src/monitor.c: attaching to a process and the loop over the stops, as a function of what `waitpid` and
-- the kernel answer.
pub mod Progress
pub mod Resumes
use agent_guard_fast_path.Common.{
  ℕ, Bool, true, false, not, ◌&&◌, Option, none, some, List, [], ◌∷◌, ◌++◌, ◌==◌, if◌then◌else◌, ℤ,
  pos, negsuc, int_eq, int_lt,
}
use agent_guard_fast_path.AgentGuard.Config.{Config}
use agent_guard_fast_path.AgentGuard.Context.{AgContext}
use agent_guard_fast_path.AgentGuard.Audit.{Trail}
use agent_guard_fast_path.AgentGuard.Monitor.{
  Monitor, mon_running, mon_stopped, Command, resume, detach, attach, set_options,
}
use agent_guard_fast_path.AgentGuard.Monitor.Handle.{Stop, State, Handled}
use agent_guard_fast_path.AgentGuard.Monitor.Handle.Decide.{ag_monitor_handle_syscall}

-- What the kernel answers while a process is attached: `stopped` is `none` where `waitpid` fails, and
-- else whether the status is that of a stop.
pub record Kernel : Type 0 where
  pub attached : Bool
  pub stopped : Option Bool
  pub options_set : Bool
  pub resumed : Bool

-- The result and the requests of the two last steps of an attachment.
unfoldable pub set_trace_options : ℤ → ℕ → Kernel → ℤ × List Command
set_trace_options pid options k =
    (if k.options_set then pos 0 else negsuc 0, set_options pid options ∷ [])

unfoldable pub ag_monitor_attach : ℤ → ℕ → Kernel → ℤ × List Command
ag_monitor_attach pid options k =
    if not k.attached then (negsuc 0, attach pid ∷ []) else elim (k.stopped) [
      | none ↦ (negsuc 0, attach pid ∷ [])
      | some is_stopped ↦
          if is_stopped
          then (
            (set_trace_options pid options k).0,
            attach pid ∷ (set_trace_options pid options k).1,
          )
          else (negsuc 0, attach pid ∷ [])
    ]

unfoldable pub ag_monitor_detach : ℤ → Bool → ℤ × List Command
ag_monitor_detach pid detached = (if detached then pos 0 else negsuc 0, detach pid ∷ [])

-- The process goes on, if what came before succeeded.
unfoldable pub then_resume : ℤ → Kernel → ℤ × List Command → ℤ × List Command
then_resume pid k (pos n, commands) =
    (if k.resumed then pos 0 else negsuc 0, commands ++ resume pid 0 ∷ [])
then_resume pid k (negsuc n, commands) = (negsuc 0, commands)

-- `ag_monitor_run` up to its loop: a process that was started is waited for, another is attached.
unfoldable pub start : AgContext → Monitor → Kernel → ℤ × List Command
start ctx m k =
    if int_lt (pos 0) ctx.target_pid && int_eq m.target_pid ctx.target_pid
    then elim (k.stopped) [
      | none ↦ (negsuc 0, [])
      | some is_stopped ↦
          then_resume m.target_pid k (set_trace_options m.target_pid m.ptrace_options k)
    ]
    else then_resume m.target_pid k (ag_monitor_attach m.target_pid m.ptrace_options k)

-- What `waitpid` answers: a failure, by a signal to the tracer or not, the end of a process, its stop by
-- a signal, or any other status.
pub data Wait : Type 0 where
  failed : Bool → Wait
  exited : ℤ → Wait
  killed : ℤ → Wait
  stopped_by : ℕ → Stop → Wait
  other : ℤ → Wait

-- A round of the loop, with `g_ctx.running` at its head.
pub record Round : Type 0 where
  pub running : Bool
  pub wait : Wait

-- The answer to a stop: a system call (SIGTRAP | 0x80), an event (SIGTRAP) and SIGSTOP (19) deliver no
-- signal.
unfoldable pub on_signal : Config → State → ℕ → Stop → State × List Command
on_signal config st sig stop =
    let h = ag_monitor_handle_syscall config stop st in
    if sig == 133
    then (h.state, h.commands)
    else if sig == 5
    then (st, resume stop.pid 0 ∷ [])
    else if sig == 19
    then (st, resume stop.pid 0 ∷ [])
    else (st, resume stop.pid sig ∷ [])

-- The body of the loop; `none` breaks out of it.
unfoldable pub on_wait : Config → State → Wait → Option (State × List Command)
on_wait config st (failed interrupted) = if interrupted then some (st, []) else none
on_wait config st (exited pid) = if int_eq pid st.monitor.target_pid then none else some (st, [])
on_wait config st (killed pid) = if int_eq pid st.monitor.target_pid then none else some (st, [])
on_wait config st (stopped_by sig stop) = some (on_signal config st sig stop)
on_wait config st (other pid) = some (st, [])

-- A run of the loop; one that is not finished waits for the next round.
pub record Run : Type 0 where
  pub finished : Bool
  pub state : State
  pub commands : List Command

unfoldable pub end_run : State → Run
end_run st = record {
  finished = true;
  state = record st { monitor = record st.monitor { state = mon_stopped } };
  commands = [];
}

-- The loop over the rounds.
unfoldable pub monitor_loop : Config → State → List Round → Run
monitor_loop config st [] = record { finished = false; state = st; commands = [] }
monitor_loop config st (r ∷ rounds) =
    if not r.running then end_run st else elim (on_wait config st r.wait) [
      | none ↦ end_run st
      | some next ↦
          let rest = monitor_loop config next.0 rounds in
          record rest { commands = next.1 ++ rest.commands }
    ]

-- The result and the run.
unfoldable pub ag_monitor_run : Config → State → Kernel → List Round → ℤ × Run
ag_monitor_run config st k rounds =
    let running = record st { monitor = record st.monitor { state = mon_running } } in
    let (code, commands) = start st.trail.ctx st.monitor k in
    elim code [
      | pos n ↦
          let run = monitor_loop config running rounds in
          (pos 0, record run { commands = commands ++ run.commands })
      | negsuc n ↦ (negsuc 0, record { finished = true; state = running; commands = commands })
    ]
