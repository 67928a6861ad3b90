-- ===== src/Calls.antt =====
-- The system calls: the numbers and the wrappers of include/unistd.h, `sys_call_table` of
-- include/linux/sys.h, the calls of kernel/traps.c that only return 0, and the call through the
-- table in kernel/sys_call.s.
pub mod Table
pub mod Answer
use mockos.Prelude.{
  ℕ, ◌+◌, ◌-◌, ◌^◌, ltb, List, [], ◌∷◌, length, Option, none, some, if◌then◌else◌, get_elem?,
}

-- A call, by the name of its function.
pub data Call : Type 0 where
  sys_setup sys_exit sys_fork sys_read sys_write sys_open sys_close sys_waitpid sys_creat sys_link
        sys_unlink sys_execve sys_chdir sys_time sys_mknod sys_chmod :
      Call
  sys_chown sys_break sys_stat sys_lseek sys_getpid sys_mount sys_umount sys_setuid sys_getuid
        sys_stime sys_ptrace sys_alarm sys_fstat sys_pause sys_utime :
      Call
  sys_stty sys_gtty sys_access sys_nice sys_ftime sys_sync sys_kill sys_rename sys_mkdir sys_rmdir
        sys_dup sys_pipe sys_times sys_prof sys_brk sys_setgid sys_getgid :
      Call
  sys_signal sys_geteuid sys_getegid sys_acct sys_phys sys_lock sys_ioctl sys_fcntl sys_mpx
        sys_setpgid sys_ulimit sys_uname sys_umask sys_chroot sys_ustat :
      Call
  sys_dup2 sys_getppid sys_getpgrp sys_setsid sys_sigaction sys_sgetmask sys_ssetmask sys_setreuid
        sys_setregid sys_sigsuspend sys_sigpending :
      Call
  sys_sethostname sys_setrlimit sys_getrlimit sys_getrusage sys_gettimeofday sys_settimeofday
        sys_getgroups sys_setgroups sys_select :
      Call
  sys_symlink sys_lstat sys_readlink sys_uselib sys_klock sys_kunlock sys_kdebug : Call

-- __NR_name, for the function `sys_name`
unfoldable pub nr : Call → ℕ
nr sys_setup = 0
nr sys_exit = 1
nr sys_fork = 2
nr sys_read = 3
nr sys_write = 4
nr sys_open = 5
nr sys_close = 6
nr sys_waitpid = 7
nr sys_creat = 8
nr sys_link = 9
nr sys_unlink = 10
nr sys_execve = 11
nr sys_chdir = 12
nr sys_time = 13
nr sys_mknod = 14
nr sys_chmod = 15
nr sys_chown = 16
nr sys_break = 17
nr sys_stat = 18
nr sys_lseek = 19
nr sys_getpid = 20
nr sys_mount = 21
nr sys_umount = 22
nr sys_setuid = 23
nr sys_getuid = 24
nr sys_stime = 25
nr sys_ptrace = 26
nr sys_alarm = 27
nr sys_fstat = 28
nr sys_pause = 29
nr sys_utime = 30
nr sys_stty = 31
nr sys_gtty = 32
nr sys_access = 33
nr sys_nice = 34
nr sys_ftime = 35
nr sys_sync = 36
nr sys_kill = 37
nr sys_rename = 38
nr sys_mkdir = 39
nr sys_rmdir = 40
nr sys_dup = 41
nr sys_pipe = 42
nr sys_times = 43
nr sys_prof = 44
nr sys_brk = 45
nr sys_setgid = 46
nr sys_getgid = 47
nr sys_signal = 48
nr sys_geteuid = 49
nr sys_getegid = 50
nr sys_acct = 51
nr sys_phys = 52
nr sys_lock = 53
nr sys_ioctl = 54
nr sys_fcntl = 55
nr sys_mpx = 56
nr sys_setpgid = 57
nr sys_ulimit = 58
nr sys_uname = 59
nr sys_umask = 60
nr sys_chroot = 61
nr sys_ustat = 62
nr sys_dup2 = 63
nr sys_getppid = 64
nr sys_getpgrp = 65
nr sys_setsid = 66
nr sys_sigaction = 67
nr sys_sgetmask = 68
nr sys_ssetmask = 69
nr sys_setreuid = 70
nr sys_setregid = 71
nr sys_sigsuspend = 72
nr sys_sigpending = 73
nr sys_sethostname = 74
nr sys_setrlimit = 75
nr sys_getrlimit = 76
nr sys_getrusage = 77
nr sys_gettimeofday = 78
nr sys_settimeofday = 79
nr sys_getgroups = 80
nr sys_setgroups = 81
nr sys_select = 82
nr sys_symlink = 83
nr sys_lstat = 84
nr sys_readlink = 85
nr sys_uselib = 86
nr sys_klock = 87
nr sys_kunlock = 88
nr sys_kdebug = 89

abbrev pub sys_call_table : List Call
sys_call_table =
    sys_setup ∷ sys_exit ∷ sys_fork ∷ sys_read ∷ sys_write ∷ sys_open ∷ sys_close ∷ sys_waitpid
    ∷ sys_creat ∷ sys_link ∷ sys_unlink ∷ sys_execve ∷ sys_chdir ∷ sys_time ∷ sys_mknod ∷ sys_chmod
    ∷ sys_chown ∷ sys_break ∷ sys_stat ∷ sys_lseek ∷ sys_getpid ∷ sys_mount ∷ sys_umount
    ∷ sys_setuid ∷ sys_getuid ∷ sys_stime ∷ sys_ptrace ∷ sys_alarm ∷ sys_fstat ∷ sys_pause
    ∷ sys_utime ∷ sys_stty ∷ sys_gtty ∷ sys_access ∷ sys_nice ∷ sys_ftime ∷ sys_sync ∷ sys_kill
    ∷ sys_rename ∷ sys_mkdir ∷ sys_rmdir ∷ sys_dup ∷ sys_pipe ∷ sys_times ∷ sys_prof ∷ sys_brk
    ∷ sys_setgid ∷ sys_getgid ∷ sys_signal ∷ sys_geteuid ∷ sys_getegid ∷ sys_acct ∷ sys_phys
    ∷ sys_lock ∷ sys_ioctl ∷ sys_fcntl ∷ sys_mpx ∷ sys_setpgid ∷ sys_ulimit ∷ sys_uname ∷ sys_umask
    ∷ sys_chroot ∷ sys_ustat ∷ sys_dup2 ∷ sys_getppid ∷ sys_getpgrp ∷ sys_setsid ∷ sys_sigaction
    ∷ sys_sgetmask ∷ sys_ssetmask ∷ sys_setreuid ∷ sys_setregid ∷ sys_sigsuspend ∷ sys_sigpending
    ∷ sys_sethostname ∷ sys_setrlimit ∷ sys_getrlimit ∷ sys_getrusage ∷ sys_gettimeofday
    ∷ sys_settimeofday ∷ sys_getgroups ∷ sys_setgroups ∷ sys_select ∷ sys_symlink ∷ sys_lstat
    ∷ sys_readlink ∷ sys_uselib ∷ sys_klock ∷ sys_kunlock ∷ sys_kdebug ∷ []

-- sizeof(sys_call_table) / sizeof(fn_ptr)
abbrev pub nr_syscalls : ℕ
nr_syscalls = length sys_call_table

-- The calls of kernel/traps.c, and what they return.
unfoldable pub stub : Call → Option ℕ
stub sys_setup = some 0
stub sys_exit = some 0
stub sys_fork = none
stub sys_read = some 0
stub sys_write = some 0
stub sys_open = some 0
stub sys_close = some 0
stub sys_waitpid = some 0
stub sys_creat = some 0
stub sys_link = some 0
stub sys_unlink = some 0
stub sys_execve = some 0
stub sys_chdir = some 0
stub sys_time = some 0
stub sys_mknod = some 0
stub sys_chmod = some 0
stub sys_chown = some 0
stub sys_break = some 0
stub sys_stat = some 0
stub sys_lseek = some 0
stub sys_getpid = some 0
stub sys_mount = some 0
stub sys_umount = some 0
stub sys_setuid = some 0
stub sys_getuid = some 0
stub sys_stime = some 0
stub sys_ptrace = some 0
stub sys_alarm = some 0
stub sys_fstat = some 0
stub sys_pause = none
stub sys_utime = some 0
stub sys_stty = some 0
stub sys_gtty = some 0
stub sys_access = some 0
stub sys_nice = some 0
stub sys_ftime = some 0
stub sys_sync = some 0
stub sys_kill = some 0
stub sys_rename = some 0
stub sys_mkdir = some 0
stub sys_rmdir = some 0
stub sys_dup = some 0
stub sys_pipe = some 0
stub sys_times = some 0
stub sys_prof = some 0
stub sys_brk = some 0
stub sys_setgid = some 0
stub sys_getgid = some 0
stub sys_signal = some 0
stub sys_geteuid = some 0
stub sys_getegid = some 0
stub sys_acct = some 0
stub sys_phys = some 0
stub sys_lock = some 0
stub sys_ioctl = some 0
stub sys_fcntl = some 0
stub sys_mpx = some 0
stub sys_setpgid = some 0
stub sys_ulimit = some 0
stub sys_uname = some 0
stub sys_umask = some 0
stub sys_chroot = some 0
stub sys_ustat = some 0
stub sys_dup2 = some 0
stub sys_getppid = some 0
stub sys_getpgrp = some 0
stub sys_setsid = some 0
stub sys_sigaction = some 0
stub sys_sgetmask = some 0
stub sys_ssetmask = some 0
stub sys_setreuid = some 0
stub sys_setregid = some 0
stub sys_sigsuspend = some 0
stub sys_sigpending = some 0
stub sys_sethostname = some 0
stub sys_setrlimit = some 0
stub sys_getrlimit = some 0
stub sys_getrusage = some 0
stub sys_gettimeofday = some 0
stub sys_settimeofday = some 0
stub sys_getgroups = some 0
stub sys_setgroups = some 0
stub sys_select = some 0
stub sys_symlink = some 0
stub sys_lstat = some 0
stub sys_readlink = some 0
stub sys_uselib = some 0
stub sys_klock = none
stub sys_kunlock = none
stub sys_kdebug = none

-- The registers that hold the arguments of a call.
pub record Registers : Type 0 where
  pub ebx : ℕ
  pub ecx : ℕ
  pub edx : ℕ

-- What the C functions return and the state behind them, where `bodies` gives it for the calls that are no
-- stubs; `none` is a call that does not return.
unfoldable pub call_function :
    {S : Type 0} (bodies : Call → Registers → S → Option (ℕ × S))
    → Call
    → Registers
    → S
    → Option (ℕ × S)
call_function bodies c regs s = elim (stub c) [ none ↦ bodies c regs s | some r ↦ some (r, s) ]

-- `system_call`: the call through the table, whose bound is not checked; behind the table the model has
-- no function to call.
unfoldable pub system_call :
    {S : Type 0} (bodies : Call → Registers → S → Option (ℕ × S)) (eax : ℕ)
    → Registers
    → S
    → Option (ℕ × S)
system_call bodies eax regs s = elim (get_elem? sys_call_table eax) [
  | none ↦ none
  | some c ↦ call_function bodies c regs s
]

-- The end of a wrapper: the value returned, and `errno` behind it. `res` is a pattern of 32 bits.
unfoldable pub wrapped : (res errno : ℕ) → ℕ × ℕ
wrapped res errno = if ltb res (2 ^ 31) then (res, errno) else (2 ^ 32 - 1, 2 ^ 32 - res)

abbrev pub answer : {S : Type 0} → (errno : ℕ) → Option (ℕ × S) → Option (ℕ × ℕ × S)
answer errno none = none
answer errno (some (res, s)) = let (v, e) = wrapped res errno in some (v, e, s)

-- _syscall0(type,name), where `regs` is what the registers hold.
unfoldable pub syscall0 :
    {S : Type 0} (bodies : Call → Registers → S → Option (ℕ × S)) (name : Call)
    → Registers
    → (errno : ℕ) → S
    → Option (ℕ × ℕ × S)
syscall0 bodies name regs errno s = answer errno (system_call bodies (nr name) regs s)

-- _syscall1(type,name,atype,a)
unfoldable pub syscall1 :
    {S : Type 0} (bodies : Call → Registers → S → Option (ℕ × S)) (name : Call) (a : ℕ)
    → Registers
    → (errno : ℕ) → S
    → Option (ℕ × ℕ × S)
syscall1 bodies name a regs errno s =
    answer errno (system_call bodies (nr name) (record regs { ebx = a }) s)
