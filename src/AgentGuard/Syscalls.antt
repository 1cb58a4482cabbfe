-- ===== src/AgentGuard/Syscalls.antt =====
-- The system call table of src/config.c, and the lookups in both directions. The numbers are those
-- of x86_64; `-1` and "desconocido" answer what is not in the table.
pub mod Lookup
mod Tests
use Prim.Native.String.{String}
use mathlib.Core.Option
use agent_guard_fast_path.Common.{
  ℕ, suc, ◌+◌, Bool, true, false, Option, none, some, List, [], ◌∷◌, ◌++◌, Str, str_eq, ◌==◌,
  if◌then◌else◌, ℤ, pos, negsuc, int_eq,
}
use agent_guard_fast_path.Text.{codes}

-- `syscall_table`, with names of consecutive numbers in one row behind the first number.
abbrev rows : List (ℕ × String)
rows =
    (0, "read write open close stat fstat lstat")
    ∷ (8, "lseek mmap mprotect munmap brk rt_sigaction rt_sigprocmask rt_sigreturn")
    ∷ (16, "ioctl pread64 pwrite64 readv writev access pipe select sched_yield mremap")
    ∷ (26, "msync mincore madvise shmget shmat shmctl dup dup2 pause nanosleep")
    ∷ (36, "getitimer alarm setitimer getpid")
    ∷ (41, "socket connect accept sendto recvfrom sendmsg recvmsg shutdown bind")
    ∷ (50, "listen getsockname getpeername socketpair setsockopt getsockopt clone")
    ∷ (57, "fork vfork execve exit wait4 kill uname")
    ∷ (72, "fcntl flock fsync fdatasync truncate ftruncate getdents getcwd chdir")
    ∷ (81, "fchdir rename mkdir rmdir creat link unlink symlink readlink chmod fchmod")
    ∷ (92, "chown fchown lchown umask gettimeofday getrlimit getrusage sysinfo times")
    ∷ (101, "ptrace getuid syslog getgid setuid setgid geteuid getegid setpgid getppid")
    ∷ (111, "getpgrp setsid setreuid setregid getgroups setgroups setresuid getresuid")
    ∷ (119, "setresgid getresgid getpgid setfsuid setfsgid getsid capget capset")
    ∷ (127, "rt_sigpending rt_sigtimedwait rt_sigqueueinfo rt_sigsuspend sigaltstack")
    ∷ (132, "utime mknod uselib personality ustat statfs fstatfs sysfs getpriority")
    ∷ (141, "setpriority sched_setparam sched_getparam sched_setscheduler")
    ∷ (145, "sched_getscheduler sched_get_priority_max sched_get_priority_min")
    ∷ (148, "sched_rr_get_interval mlock munlock mlockall munlockall vhangup")
    ∷ (154, "modify_ldt pivot_root _sysctl prctl arch_prctl adjtimex setrlimit chroot")
    ∷ (162, "sync acct settimeofday mount umount2 swapon swapoff reboot sethostname")
    ∷ (171, "setdomainname iopl ioperm create_module init_module delete_module")
    ∷ (177, "get_kernel_syms query_module quotactl nfsservctl getpmsg putpmsg")
    ∷ (183, "afs_syscall tuxcall security gettid readahead setxattr lsetxattr")
    ∷ (190, "fsetxattr getxattr lgetxattr fgetxattr listxattr llistxattr flistxattr")
    ∷ (197, "removexattr lremovexattr fremovexattr tkill time futex sched_setaffinity")
    ∷ (204, "sched_getaffinity set_hilo_area io_setup io_destroy io_getevents")
    ∷ (209, "io_submit io_cancel get_hilo_area lookup_dcookie epoll_create")
    ∷ (214, "epoll_ctl_old epoll_wait_old remap_file_pages getdents64 set_tid_address")
    ∷ (219, "restart_syscall semtimedop fadvise64 timer_create timer_settime")
    ∷ (224, "timer_gettime timer_getoverrun timer_delete clock_settime clock_gettime")
    ∷ (229, "clock_getres clock_nanosleep exit_group epoll_wait epoll_ctl tgkill")
    ∷ (235, "utimes vserver mbind set_mempolicy get_mempolicy mq_open mq_unlink")
    ∷ (242, "mq_timedsend mq_timedreceive mq_notify mq_getsetattr kexec_load waitid")
    ∷ (248, "add_key request_key keyctl ioprio_set ioprio_get inotify_init")
    ∷ (254, "inotify_add_watch inotify_rm_watch migrate_pages openat mkdirat mknodat")
    ∷ (260, "fchownat futimesat newfstatat unlinkat renameat linkat symlinkat")
    ∷ (267, "readlinkat fchmodat faccessat pselect6 ppoll unshare set_robust_list")
    ∷ (274, "get_robust_list splice tee sync_file_range vmsplice move_pages utimensat")
    ∷ (281, "epoll_pwait signalfd timerfd_create eventfd fallocate timerfd_settime")
    ∷ (287, "timerfd_gettime accept4 signalfd4 eventfd2 epoll_create1 dup3 pipe2")
    ∷ (294, "inotify_init1 preadv pwritev rt_tgsigqueueinfo perf_event_open recvmmsg")
    ∷ (300, "fanotify_init fanotify_mark prlimit64 name_to_handle_at open_by_handle_at")
    ∷ (305, "clock_adjtime syncfs sendmmsg setns getcpu process_vm_readv")
    ∷ (311, "process_vm_writev kcmp finit_module sched_setattr sched_getattr renameat2")
    ∷ (317, "seccomp getrandom memfd_create kexec_file_load bpf execveat userfaultfd")
    ∷ (324, "membarrier mlock2 copy_file_range preadv2 pwritev2 pkey_mprotect")
    ∷ (330, "pkey_alloc pkey_free statx io_pgetevents rseq")
    ∷ (424, "pidfd_send_signal io_uring_setup io_uring_enter io_uring_register")
    ∷ (428, "open_tree move_mount fsopen fsconfig fsmount fspick pidfd_open clone3")
    ∷ (437, "openat2 pidfd_getfd faccessat2 process_madvise epoll_pwait2 mount_setattr")
    ∷ (443, "quotactl_fd landlock_create_ruleset landlock_add_rule")
    ∷ (446, "landlock_restrict_self memfd_secret process_mrelease futex_waitv")
    ∷ (450, "set_mempolicy_home_node cachestat fchmodat2 map_shadow_stack futex_wake")
    ∷ (455, "futex_wait futex_requeue statmount listmount lsm_get_self_attr")
    ∷ (460, "lsm_set_self_attr lsm_list_modules")
    ∷ []

-- The words of a row; `word` is the one that is being read, from its last byte.
unfoldable pub split_words : Str → Str → List Str
split_words word [] = word ∷ []
split_words word (c ∷ s) =
    if c == b' ' then word ∷ split_words [] s else split_words (word ++ c ∷ []) s

unfoldable pub numbered : ℕ → List Str → List (ℕ × Str)
numbered n [] = []
numbered n (name ∷ names) = (n, name) ∷ numbered (n + 1) names

unfoldable pub entries : List (ℕ × String) → List (ℕ × Str)
unfolding split_words numbered
entries [] = []
entries (r ∷ rs) = numbered r.0 (split_words [] (codes r.1)) ++ entries rs

unfoldable pub syscall_table : List (ℕ × Str)
unfolding entries
syscall_table = entries rows

-- The loop over the table, by number and by name.
name_in : List (ℕ × Str) → ℤ → Str
name_in [] num = codes "desconocido"
name_in (e ∷ table) num = if int_eq (pos e.0) num then e.1 else name_in table num

unfoldable pub number_in : List (ℕ × Str) → Str → ℤ
number_in [] name = negsuc 0
number_in (e ∷ table) name = if str_eq e.1 name then pos e.0 else number_in table name

unfoldable pub ag_syscall_name : ℤ → Str
unfolding name_in
ag_syscall_name num = name_in syscall_table num

unfoldable pub ag_syscall_number : Str → ℤ
unfolding number_in
ag_syscall_number name = number_in syscall_table name
