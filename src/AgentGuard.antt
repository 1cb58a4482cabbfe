-- ===== src/AgentGuard.antt =====
-- agentguard, the monitor: src/config.c, src/audit.c, src/integrity.c and src/monitor.c.
pub mod Syscalls
pub mod Config
pub mod Utils
pub mod Context
pub mod Audit
pub mod Monitor
pub mod Integrity
