-- ===== src/AgentGuard/Monitor/Handle/Mediation.antt =====
-- Every system call of a traced process is decided by the policy.
use agent_guard_fast_path.Common.{
  ℕ, ◌+◌, ◌≡◌, refl, sym, ap, subst, ◌∙◌, Bool, true, false, false≢true, Option, none, some, [],
  ◌∷◌, Str, arith, if◌then◌else◌, Bool-cases, inl, inr, ◌⊎◌, ℤ, pos, u64,
}
use agent_guard_fast_path.AgentGuard.Config.{Action, block, AgPolicy, Config}
use agent_guard_fast_path.AgentGuard.Config.Evaluate.{ag_config_get_policy_for_process}
use agent_guard_fast_path.AgentGuard.Utils.{ag_strlcpy}
use agent_guard_fast_path.AgentGuard.Syscalls.{ag_syscall_name}
use agent_guard_fast_path.AgentGuard.Audit.{System, AuditType, Severity, Trail, Entry}
use agent_guard_fast_path.AgentGuard.Audit.Requests.{
  recorded, ag_audit_add, ag_audit_add_syscall, ag_audit_add_file_op, ag_audit_add_net_op,
}
use agent_guard_fast_path.AgentGuard.Monitor.{Monitor, set_call, resume}
use agent_guard_fast_path.AgentGuard.Monitor.Handle.{
  Regs, Stop, State, Handled, int_of, blocked, counted,
}
use agent_guard_fast_path.AgentGuard.Monitor.Handle.Decide.{
  handle_open, handle_exec, handle_connect, handle_ptrace, handle_kill, specific, general, decide,
  or_else, with_regs, ag_monitor_handle_syscall,
}
use agent_guard_fast_path.AgentGuard.Monitor.Handle.Verdict.{
  stopped, replaced, Forbidden, decide-commands, stopped_iff,
}

-- No entry of the audit changes the number of blocked calls, or of events.
abbrev Keeps : (Trail → ℤ × Trail) → Type 0
Keeps audit =
    (t : Trail)
    → ((audit t).1.ctx.block_count ≡ t.ctx.block_count)
      × ((audit t).1.ctx.event_count ≡ t.ctx.event_count)

recorded-Keeps :
    (severity : Severity) (e : Entry) (t : Trail)
    → ((recorded severity e t).ctx.block_count ≡ t.ctx.block_count)
      × ((recorded severity e t).ctx.event_count ≡ t.ctx.event_count)
unfolding recorded
recorded-Keeps severity e t = ground arith

ag_audit_add-Keeps :
    (sys : System) (type : AuditType) (severity : Severity)
    (source target action result details : Option Str)
    → Keeps (ag_audit_add sys type severity source target action result details)
unfolding ag_audit_add
ag_audit_add-Keeps sys type severity source target action result details t =
    ground (arith, recorded-Keeps severity _ t)

file_op-Keeps :
    (sys : System) (path : Str) (flags : ℤ) (action : Action)
    → Keeps (ag_audit_add_file_op sys path flags action)
unfolding ag_audit_add_file_op
file_op-Keeps sys path flags action t = search ag_audit_add-Keeps

net_op-Keeps :
    (sys : System) (remote_addr : Str) (remote_port : ℤ) (action : Action)
    → Keeps (ag_audit_add_net_op sys remote_addr remote_port action)
unfolding ag_audit_add_net_op
net_op-Keeps sys remote_addr remote_port action t = search ag_audit_add-Keeps

syscall-Keeps :
    (sys : System) (comm name : Str) (arg0 arg1 arg2 : ℕ) (action : Action)
    → Keeps (ag_audit_add_syscall sys comm name arg0 arg1 arg2 action)
unfolding ag_audit_add_syscall
syscall-Keeps sys comm name arg0 arg1 arg2 action t = search ag_audit_add-Keeps

-- The call is replaced, the process goes on, and one more call is counted as blocked.
record IsBlocked (pid : ℤ) (st : State) (h : Handled) : Type 0 where
  replaces : h.commands ≡ replaced pid
  counts : h.state.trail.ctx.block_count ≡ u64 (st.trail.ctx.block_count + 1)
  events : h.state.trail.ctx.event_count ≡ st.trail.ctx.event_count
  answers : h.code ≡ pos 0
  target : h.state.monitor.target_pid ≡ st.monitor.target_pid

blocked-IsBlocked :
    (pid : ℤ) (bump : Monitor → Monitor) (audit : Trail → ℤ × Trail) (st : State)
    → ((m : Monitor) → (bump m).target_pid ≡ m.target_pid)
    → Keeps audit
    → IsBlocked pid st (blocked pid bump audit st)
unfolding blocked
blocked-IsBlocked pid bump audit st same keeps = record {
  replaces = refl;
  counts = (keeps _).0;
  events = (keeps _).1;
  answers = refl;
  target = same st.monitor;
}

-- A branch that answers has blocked.
data Stops (pid : ℤ) (st : State) : Option Handled → Type 0 where
  passes : Stops pid st none
  stops : {h : Handled} → IsBlocked pid st h → Stops pid st (some h)

Stops_if :
    {pid : ℤ} {st : State} (b : Bool) {x y : Option Handled}
    → Stops pid st x
    → Stops pid st y
    → Stops pid st (if b then x else y)
Stops_if true p q = p
Stops_if false p q = q

module _ (policy : Option AgPolicy) (stop : Stop) (r : Regs) (st : State) where
  open-Stops : Stops stop.pid st (handle_open policy stop r st)
  unfolding handle_open
  open-Stops =
      Stops_if _ (stops (blocked-IsBlocked _ _ _ st (λ m. refl) (file_op-Keeps _ _ _ _))) passes

  exec-Stops : Stops stop.pid st (handle_exec policy stop r st)
  unfolding handle_exec
  exec-Stops =
      Stops_if _
        (stops (blocked-IsBlocked _ _ _ st (λ m. refl) (ag_audit_add-Keeps _ _ _ _ _ _ _ _))) passes

  connect-Stops : Stops stop.pid st (handle_connect policy stop r st)
  unfolding handle_connect
  connect-Stops =
      Stops_if _ (stops (blocked-IsBlocked _ _ _ st (λ m. refl) (net_op-Keeps _ _ _ _))) passes

  ptrace-Stops : Stops stop.pid st (some (handle_ptrace stop st))
  unfolding handle_ptrace
  ptrace-Stops = stops (blocked-IsBlocked _ _ _ st (λ m. refl) (ag_audit_add-Keeps _ _ _ _ _ _ _ _))

  kill-Stops : Stops stop.pid st (handle_kill stop r st)
  unfolding handle_kill
  kill-Stops =
      Stops_if _ (stops (blocked-IsBlocked _ _ _ st (λ m. refl) (λ t. (refl, refl)))) passes

  specific-Stops : Stops stop.pid st (specific policy stop r st)
  unfolding specific
  specific-Stops = Stops_if _ open-Stops (
      Stops_if _ exec-Stops
        (Stops_if _ connect-Stops (Stops_if _ ptrace-Stops (Stops_if _ kill-Stops passes))))

-- The call goes on as it is, and nothing is counted.
record IsAllowed (pid : ℤ) (st : State) (h : Handled) : Type 0 where
  resumes : h.commands ≡ resume pid 0 ∷ []
  unchanged : h.state ≡ st
  answers : h.code ≡ pos 0

general-cases :
    (policy : Option AgPolicy) (stop : Stop) (r : Regs) (st : State)
    → IsBlocked stop.pid st (general policy stop r st)
      ⊎ IsAllowed stop.pid st (general policy stop r st)
unfolding general
general-cases policy stop r st = split _
  where
    split :
        (b : Bool)
        → let h =
            if b
            then blocked stop.pid
                (λ (m : Monitor). record m { blocked_syscalls = u64 (m.blocked_syscalls + 1) })
                (ag_audit_add_syscall stop.sys stop.comm
                  (ag_strlcpy (some (ag_syscall_name (int_of r.orig_rax))) 64)
                  r.rdi
                  r.rsi
                  r.rdx
                  block)
                st
            else record { code = pos 0; state = st; commands = resume stop.pid 0 ∷ [] } in
          IsBlocked stop.pid st h ⊎ IsAllowed stop.pid st h
    split true = inl (blocked-IsBlocked _ _ _ st (λ m. refl) (syscall-Keeps _ _ _ _ _ _ _))
    split false = inr (record { resumes = refl; unchanged = refl; answers = refl })

or_else-cases :
    (pid : ℤ) (st : State) (found : Option Handled) (other : Handled)
    → Stops pid st found
    → IsBlocked pid st other ⊎ IsAllowed pid st other
    → IsBlocked pid st (or_else found other) ⊎ IsAllowed pid st (or_else found other)
unfolding or_else
or_else-cases pid st none other passes h = h
or_else-cases pid st (some found) other (stops e) h = inl e

decide-cases :
    (policy : Option AgPolicy) (stop : Stop) (r : Regs) (st : State)
    → IsBlocked stop.pid st (decide policy stop r st)
      ⊎ IsAllowed stop.pid st (decide policy stop r st)
unfolding decide
decide-cases policy stop r st =
    or_else-cases stop.pid st (specific policy stop r st) (general policy stop r st)
      (specific-Stops policy stop r st) (general-cases policy stop r st)

handler-decide :
    (config : Config) (stop : Stop) (st : State) (r : Regs) (p : AgPolicy)
    → stop.regs ≡ some r
    → ag_config_get_policy_for_process config stop.comm ≡ some p
    → ag_monitor_handle_syscall config stop st ≡ decide (some p) stop r (counted stop.now st)
unfolding ag_monitor_handle_syscall with_regs
handler-decide config stop st r p regs policy =
    ap (with_regs config stop st) regs
    ∙ ap (λ (q : Option AgPolicy). decide q stop r (counted stop.now st)) policy

-- What comes of a call that is decided.
abbrev pub Settles : AgPolicy → Stop → State → Regs → Handled → Type 0
Settles p stop st r h =
    (h.code ≡ pos 0)
    × (h.state.trail.ctx.event_count ≡ u64 (st.trail.ctx.event_count + 1))
    × ((Forbidden p stop r
          × (h.commands ≡ set_call stop.pid 39 ∷ resume stop.pid 0 ∷ [])
          × (h.state.trail.ctx.block_count ≡ u64 (st.trail.ctx.block_count + 1)))
        ⊎ ((¬ Forbidden p stop r)
            × (h.commands ≡ resume stop.pid 0 ∷ [])
            × (h.state ≡ counted stop.now st)))

counted-ctx :
    (now : ℤ) (st : State)
    → ((counted now st).trail.ctx.event_count ≡ u64 (st.trail.ctx.event_count + 1))
      × ((counted now st).trail.ctx.block_count ≡ st.trail.ctx.block_count)
unfolding counted
counted-ctx now st = (refl, refl)

-- A call that is stopped is not one that is allowed.
replaced_ne_resumed {ℓ} : {A : Type ℓ} (pid : ℤ) → replaced pid ≡ resume pid 0 ∷ [] → A
replaced_ne_resumed pid e = cc

decide-Settles :
    (stop : Stop) (st : State) (r : Regs) (p : AgPolicy)
    → Settles p stop st r (decide (some p) stop r (counted stop.now st))
decide-Settles stop st r p =
    let now = counted stop.now st in
    let (events, blocks) = counted-ctx stop.now st in
    let commands = decide-commands (some p) stop r now in
    elim (decide-cases (some p) stop r now) [
      | inl b ↦ elim (Bool-cases (stopped (some p) stop r)) [
        | inl e ↦ (
          b.answers,
          b.events ∙ events,
          inl (
            (stopped_iff p stop r).0 e,
            b.replaces,
            b.counts ∙ ap (λ (n : ℕ). u64 (n + 1)) blocks,
          ),
        )
        | inr e ↦ replaced_ne_resumed stop.pid (sym b.replaces ∙ rw e at commands)
      ]
      | inr a ↦ elim (Bool-cases (stopped (some p) stop r)) [
        | inl e ↦ replaced_ne_resumed stop.pid (sym (rw e at commands) ∙ a.resumes)
        | inr e ↦ (
          a.answers,
          ap (λ (s : State). s.trail.ctx.event_count) a.unchanged ∙ events,
          inr (λ f. false≢true (sym e ∙ (stopped_iff p stop r).1 f), a.resumes, a.unchanged),
        )
      ]
    ]

-- A system call whose registers can be read, of a process with a policy, is resumed in every case, and
-- counted as an event. Either the policy forbids it, and it is replaced by getpid first and counted as
-- blocked; or the policy does not, and it is resumed as it is, with no global changed but the counters
-- of events and of the rate.
pub ag_monitor_handle_syscall-Settles :
    (config : Config) (stop : Stop) (st : State) (r : Regs) (p : AgPolicy)
    → stop.regs ≡ some r
    → ag_config_get_policy_for_process config stop.comm ≡ some p
    → Settles p stop st r (ag_monitor_handle_syscall config stop st)
ag_monitor_handle_syscall-Settles config stop st r p regs policy =
    subst (Settles p stop st r) (sym (handler-decide config stop st r p regs policy))
      (decide-Settles stop st r p)

-- No system call changes the process that is traced.
pub decide-target :
    (policy : Option AgPolicy) (stop : Stop) (r : Regs) (st : State)
    → (decide policy stop r st).state.monitor.target_pid ≡ st.monitor.target_pid
decide-target policy stop r st = elim (decide-cases policy stop r st) [
  | inl b ↦ b.target
  | inr a ↦ ap (λ (s : State). s.monitor.target_pid) a.unchanged
]

pub decide-resumes :
    (policy : Option AgPolicy) (stop : Stop) (r : Regs) (st : State)
    → ((decide policy stop r st).commands ≡ replaced stop.pid)
      ⊎ ((decide policy stop r st).commands ≡ resume stop.pid 0 ∷ [])
decide-resumes policy stop r st = elim (decide-cases policy stop r st) [
  | inl b ↦ inl b.replaces
  | inr a ↦ inr a.resumes
]
