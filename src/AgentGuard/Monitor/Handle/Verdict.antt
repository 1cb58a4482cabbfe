-- ===== src/AgentGuard/Monitor/Handle/Verdict.antt =====
-- Which system calls are stopped: the decision of the handler as one test, and as a statement on the
-- rules of the policy.
use agent_guard_fast_path.Common.{
  ◌%◌, ◌^◌, ◌≡◌, ◌↔◌, Bool, true, ◌&&◌, ◌||◌, Option, none, some, List, [], ◌∷◌, arith,
  if◌then◌else◌, ◌⊎◌, ℤ, pos, int_eq, int_eq_iff,
}
use agent_guard_fast_path.AgentGuard.Config.{Action, allow, block, alert, log, kill, AgPolicy}
use agent_guard_fast_path.AgentGuard.Config.Evaluate.{
  ag_policy_evaluate_syscall, ag_policy_evaluate_file, ag_policy_evaluate_exec,
  ag_policy_evaluate_network,
}
use agent_guard_fast_path.AgentGuard.Config.Decisions.{
  SyscallBlocked, FileBlocked, ExecBlocked, NetworkBlocked, ag_policy_evaluate_lem,
}
use agent_guard_fast_path.AgentGuard.Audit.Requests.{is_block}
use agent_guard_fast_path.AgentGuard.Monitor.{Command, set_call, resume}
use agent_guard_fast_path.AgentGuard.Monitor.Handle.{
  Regs, Stop, State, int_of, is_open, is_exec, is_kill, open_path, open_flags, exec_path, address,
  host_of, port_of, blocked,
}
use agent_guard_fast_path.AgentGuard.Monitor.Handle.Decide.{
  handle_open, handle_exec, handle_connect, handle_ptrace, handle_kill, specific, general, decide,
  or_else,
}

-- The test of the branch that a number has in the `switch`.
unfoldable pub stopped_by_branch : Option AgPolicy → Stop → Regs → Bool
stopped_by_branch policy stop r =
    let n = int_of r.orig_rax in
    let ss = address stop r in
    is_open n
      && is_block (ag_policy_evaluate_file policy (open_path stop r) (open_flags r % 2 ^ 32))
    || (is_exec n && is_block (ag_policy_evaluate_exec policy (exec_path stop r))
        || (int_eq n (pos 42)
              && is_block (ag_policy_evaluate_network policy (host_of stop ss) (port_of ss))
            || (int_eq n (pos 101)
                || is_kill n
                  && (int_eq (int_of r.rdi) (pos 1) || int_eq (int_of r.rdi) stop.self))))

unfoldable pub stopped : Option AgPolicy → Stop → Regs → Bool
stopped policy stop r =
    stopped_by_branch policy stop r
    || is_block (ag_policy_evaluate_syscall policy (int_of r.orig_rax))

abbrev pub replaced : ℤ → List Command
replaced pid = set_call pid 39 ∷ resume pid 0 ∷ []

specific-commands :
    (policy : Option AgPolicy) (stop : Stop) (r : Regs) (st : State)
    → (elim (specific policy stop r st) [ some h ↦ h.commands | none ↦ [] ])
      ≡ (if stopped_by_branch policy stop r then replaced stop.pid else [])
unfolding specific handle_open handle_exec handle_connect handle_ptrace handle_kill blocked
    stopped_by_branch
specific-commands policy stop r st = ground arith

pub decide-commands :
    (policy : Option AgPolicy) (stop : Stop) (r : Regs) (st : State)
    → (decide policy stop r st).commands
      ≡ (if stopped policy stop r then replaced stop.pid else resume stop.pid 0 ∷ [])
unfolding or_else decide specific general handle_open handle_exec handle_connect handle_ptrace
    handle_kill blocked stopped stopped_by_branch
decide-commands policy stop r st = ground arith

-- The branch of a call forbids it: an open or an execution of a path under the rules, a connection,
-- any ptrace, a signal to init or to the tracer.
abbrev pub BranchForbidden : AgPolicy → Stop → Regs → Type 0
BranchForbidden p stop r =
    ((is_open (int_of r.orig_rax) ≡ true)
      × FileBlocked p (open_path stop r) (open_flags r % 2 ^ 32))
    ⊎ ((is_exec (int_of r.orig_rax) ≡ true) × ExecBlocked p (exec_path stop r))
    ⊎ ((int_of r.orig_rax ≡ pos 42) × NetworkBlocked p (port_of (address stop r)))
    ⊎ (int_of r.orig_rax ≡ pos 101)
    ⊎ ((is_kill (int_of r.orig_rax) ≡ true) × ((int_of r.rdi ≡ pos 1) ⊎ (int_of r.rdi ≡ stop.self)))

-- A policy forbids a call of this process, by its branch or by its number.
abbrev pub Forbidden : AgPolicy → Stop → Regs → Type 0
Forbidden p stop r = BranchForbidden p stop r ⊎ SyscallBlocked p (int_of r.orig_rax)

is_block_iff : (a : Action) → (is_block a ≡ true) ↔ (a ≡ block)
unfolding is_block
is_block_iff allow = ground arith
is_block_iff block = ground arith
is_block_iff alert = ground arith
is_block_iff log = ground arith
is_block_iff kill = ground arith

module _ {A B : Type 0} {a b : Bool} (f : (a ≡ true) ↔ A) (g : (b ≡ true) ↔ B) where
  or_iff : ((a || b) ≡ true) ↔ (A ⊎ B)
  or_iff = ground (arith, f, g)

  and_iff : ((a && b) ≡ true) ↔ (A × B)
  and_iff = ground (arith, f, g)

itself : (b : Bool) → (b ≡ true) ↔ (b ≡ true)
itself b = (λ e. e, λ e. e)

-- The test of a decision, for what makes it block.
module _ {A : Type 0} (a : Action) (f : (a ≡ block) ↔ A) where
  blocks_iff : (is_block a ≡ true) ↔ A
  blocks_iff = ground (arith, is_block_iff a, f)

pub stopped_iff :
    (p : AgPolicy) (stop : Stop) (r : Regs) → (stopped (some p) stop r ≡ true) ↔ Forbidden p stop r
unfolding stopped stopped_by_branch
stopped_iff p stop r =
    let n = int_of r.orig_rax in
    let host = host_of stop (address stop r) in
    let port = port_of (address stop r) in
    let flags = open_flags r % 2 ^ 32 in
    let (calls, files, _, network) =
      ag_policy_evaluate_lem p n (open_path stop r) flags host port in
    let (_, _, programs, _) = ag_policy_evaluate_lem p n (exec_path stop r) flags host port in
    or_iff
      (or_iff (and_iff (itself (is_open n)) (blocks_iff _ files)) (
        or_iff (and_iff (itself (is_exec n)) (blocks_iff _ programs)) (
          or_iff (and_iff (int_eq_iff n (pos 42)) (blocks_iff _ network)) (
            or_iff (int_eq_iff n (pos 101)) (
              and_iff (itself (is_kill n)) (
                or_iff (int_eq_iff (int_of r.rdi) (pos 1))
                  (int_eq_iff (int_of r.rdi) stop.self)))))))
      (blocks_iff _ calls)
