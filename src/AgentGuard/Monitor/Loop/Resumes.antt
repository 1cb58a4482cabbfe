-- ===== src/AgentGuard/Monitor/Loop/Resumes.antt =====
-- No process that stops stays stopped.
use agent_guard_fast_path.Common.{
  ℕ, ◌≡◌, ◌≢◌, refl, sym, ap, ap₂, ◌∙◌, true, false, false≢true, Option, none, some, List, [], ◌∷◌,
  ◌++◌, arith, inl, inr, ◌⊎◌, ℤ, All,
}
use agent_guard_fast_path.AgentGuard.Config.{Config}
use agent_guard_fast_path.AgentGuard.Config.Evaluate.{ag_config_get_policy_for_process}
use agent_guard_fast_path.AgentGuard.Monitor.{
  Command, set_call, resume, detach, attach, set_options,
}
use agent_guard_fast_path.AgentGuard.Monitor.Handle.{Regs, Stop, State, counted}
use agent_guard_fast_path.AgentGuard.Monitor.Handle.Decide.{with_regs, ag_monitor_handle_syscall}
use agent_guard_fast_path.AgentGuard.Monitor.Handle.Mediation.{decide-resumes}
use agent_guard_fast_path.AgentGuard.Monitor.Loop.{
  Wait, failed, exited, killed, stopped_by, other, Round, Run, on_signal, on_wait, monitor_loop,
}
use agent_guard_fast_path.AgentGuard.Monitor.Loop.Progress.{
  ends, some_ends, on_wait-ends, loop_goes_on,
}

-- The processes that are resumed, in order.
abbrev pub resumed : List Command → List ℤ
resumed [] = []
resumed (set_call pid n ∷ cs) = resumed cs
resumed (resume pid sig ∷ cs) = pid ∷ resumed cs
resumed (detach pid ∷ cs) = resumed cs
resumed (attach pid ∷ cs) = resumed cs
resumed (set_options pid n ∷ cs) = resumed cs

-- The processes that stop, in order.
abbrev pub stopping : Wait → List ℤ
stopping (failed interrupted) = []
stopping (exited pid) = []
stopping (killed pid) = []
stopping (stopped_by sig stop) = stop.pid ∷ []
stopping (other pid) = []

abbrev pub stops : List Round → List ℤ
stops [] = []
stops (r ∷ rounds) = stopping r.wait ++ stops rounds

-- The registers can be read at the stop of a system call.
abbrev pub Readable : Wait → Type 0
Readable (failed interrupted) = Unit
Readable (exited pid) = Unit
Readable (killed pid) = Unit
Readable (stopped_by sig stop) = (sig ≢ 133) ⊎ ((r : Regs) × (stop.regs ≡ some r))
Readable (other pid) = Unit

resumed-append : (cs ds : List Command) → resumed (cs ++ ds) ≡ resumed cs ++ resumed ds
resumed-append [] ds = refl
resumed-append (set_call pid n ∷ cs) ds = resumed-append cs ds
resumed-append (resume pid sig ∷ cs) ds = ap (λ (t : List ℤ). pid ∷ t) (resumed-append cs ds)
resumed-append (detach pid ∷ cs) ds = resumed-append cs ds
resumed-append (attach pid ∷ cs) ds = resumed-append cs ds
resumed-append (set_options pid n ∷ cs) ds = resumed-append cs ds

handler-resumed :
    (config : Config) (stop : Stop) (st : State) (r : Regs)
    → stop.regs ≡ some r
    → resumed (ag_monitor_handle_syscall config stop st).commands ≡ stop.pid ∷ []
unfolding ag_monitor_handle_syscall with_regs
handler-resumed config stop st r regs =
    ap (λ (q : Option Regs). resumed (with_regs config stop st q).commands) regs
    ∙ elim (decide-resumes (ag_config_get_policy_for_process config stop.comm) stop r
        (counted stop.now st)) [ inl e ↦ ap resumed e | inr e ↦ ap resumed e ]

on_signal-resumed :
    (config : Config) (st : State) (sig : ℕ) (stop : Stop)
    → Readable (stopped_by sig stop)
    → resumed (on_signal config st sig stop).1 ≡ stop.pid ∷ []
unfolding on_signal
on_signal-resumed config st sig stop (inl ne) = ground (arith, ne)
on_signal-resumed config st sig stop (inr (r, regs)) =
    ground (arith, handler-resumed config stop st r regs)

abbrev commands_of : Option (State × List Command) → List Command
commands_of none = []
commands_of (some next) = next.1

on_wait-commands :
    (config : Config) (st : State) (w : Wait)
    → Readable w
    → ends st.monitor.target_pid w ≡ false
    → resumed (commands_of (on_wait config st w)) ≡ stopping w
unfolding on_wait ends
on_wait-commands config st (failed interrupted) h e = ground (arith, e)
on_wait-commands config st (exited pid) h e = rw e refl
on_wait-commands config st (killed pid) h e = rw e refl
on_wait-commands config st (stopped_by sig stop) h e = on_signal-resumed config st sig stop h
on_wait-commands config st (other pid) h e = refl

-- What a run in which no round ends the loop says of its first round.
first_round :
    (target : ℤ) (r : Round) (rounds : List Round)
    → some_ends target (r ∷ rounds) ≡ false
    → (r.running ≡ true) × (ends target r.wait ≡ false) × (some_ends target rounds ≡ false)
unfolding some_ends
first_round target r rounds h = ground (arith, h)

-- As long as the loop goes on, the processes that it resumes are exactly those that stopped, in the
-- order of the stops and once for each, whatever the policy decides. The registers are taken to be
-- readable at the stop of a system call.
pub monitor_loop-resumed :
    (config : Config) (st : State) (rounds : List Round)
    → All (λ (r : Round). Readable r.wait) rounds
    → some_ends st.monitor.target_pid rounds ≡ false
    → resumed (monitor_loop config st rounds).commands ≡ stops rounds
monitor_loop-resumed config st [] readable h = unfold monitor_loop in refl
monitor_loop-resumed config st (r ∷ rounds) (now, later) h =
    let target = st.monitor.target_pid in
    let (running, stays, rest) = first_round target r rounds h in
    elim (on_wait-ends config st r.wait) [
      | inl (breaks, over) ↦ absurd (false≢true (sym stays ∙ over))
      | inr (next, goes, e, same) ↦
          ap (λ (run : Run). resumed run.commands)
            (loop_goes_on config st r rounds next running goes)
          ∙ resumed-append next.1 (monitor_loop config next.0 rounds).commands
          ∙ ap₂ ◌++◌
              (sym (ap (λ (o : Option (State × List Command)). resumed (commands_of o)) goes)
                ∙ on_wait-commands config st r.wait now stays)
              (monitor_loop-resumed config next.0 rounds later
                (ap (λ (t : ℤ). some_ends t rounds) same ∙ rest))
    ]
