-- ===== src/Calls/Table.antt =====
-- The numbers of include/unistd.h are the places in `sys_call_table` of include/linux/sys.h.
use mockos.Prelude.{
  Bool, true, ◌==◌, ◌&&◌, ℕ, zero, suc, ◌+◌, ◌<◌, ◌≤◌, ◌≡◌, refl, ◌∙◌, arith, List, [], ◌∷◌, length,
  none, some, get_elem?,
}
use mockos.Calls.{
  Call, nr, sys_call_table, nr_syscalls, sys_setup, sys_exit, sys_fork, sys_read, sys_write,
  sys_open, sys_close, sys_waitpid, sys_creat, sys_link, sys_unlink, sys_execve, sys_chdir,
  sys_time, sys_mknod, sys_chmod, sys_chown, sys_break, sys_stat, sys_lseek, sys_getpid, sys_mount,
  sys_umount, sys_setuid, sys_getuid, sys_stime, sys_ptrace, sys_alarm, sys_fstat, sys_pause,
  sys_utime, sys_stty, sys_gtty, sys_access, sys_nice, sys_ftime, sys_sync, sys_kill, sys_rename,
  sys_mkdir, sys_rmdir, sys_dup, sys_pipe, sys_times, sys_prof, sys_brk, sys_setgid, sys_getgid,
  sys_signal, sys_geteuid, sys_getegid, sys_acct, sys_phys, sys_lock, sys_ioctl, sys_fcntl, sys_mpx,
  sys_setpgid, sys_ulimit, sys_uname, sys_umask, sys_chroot, sys_ustat, sys_dup2, sys_getppid,
  sys_getpgrp, sys_setsid, sys_sigaction, sys_sgetmask, sys_ssetmask, sys_setreuid, sys_setregid,
  sys_sigsuspend, sys_sigpending, sys_sethostname, sys_setrlimit, sys_getrlimit, sys_getrusage,
  sys_gettimeofday, sys_settimeofday, sys_getgroups, sys_setgroups, sys_select, sys_symlink,
  sys_lstat, sys_readlink, sys_uselib, sys_klock, sys_kunlock, sys_kdebug,
}

at_own_number : (c : Call) → get_elem? sys_call_table (nr c) ≡ some c
unfolding nr
at_own_number sys_setup = refl
at_own_number sys_exit = refl
at_own_number sys_fork = refl
at_own_number sys_read = refl
at_own_number sys_write = refl
at_own_number sys_open = refl
at_own_number sys_close = refl
at_own_number sys_waitpid = refl
at_own_number sys_creat = refl
at_own_number sys_link = refl
at_own_number sys_unlink = refl
at_own_number sys_execve = refl
at_own_number sys_chdir = refl
at_own_number sys_time = refl
at_own_number sys_mknod = refl
at_own_number sys_chmod = refl
at_own_number sys_chown = refl
at_own_number sys_break = refl
at_own_number sys_stat = refl
at_own_number sys_lseek = refl
at_own_number sys_getpid = refl
at_own_number sys_mount = refl
at_own_number sys_umount = refl
at_own_number sys_setuid = refl
at_own_number sys_getuid = refl
at_own_number sys_stime = refl
at_own_number sys_ptrace = refl
at_own_number sys_alarm = refl
at_own_number sys_fstat = refl
at_own_number sys_pause = refl
at_own_number sys_utime = refl
at_own_number sys_stty = refl
at_own_number sys_gtty = refl
at_own_number sys_access = refl
at_own_number sys_nice = refl
at_own_number sys_ftime = refl
at_own_number sys_sync = refl
at_own_number sys_kill = refl
at_own_number sys_rename = refl
at_own_number sys_mkdir = refl
at_own_number sys_rmdir = refl
at_own_number sys_dup = refl
at_own_number sys_pipe = refl
at_own_number sys_times = refl
at_own_number sys_prof = refl
at_own_number sys_brk = refl
at_own_number sys_setgid = refl
at_own_number sys_getgid = refl
at_own_number sys_signal = refl
at_own_number sys_geteuid = refl
at_own_number sys_getegid = refl
at_own_number sys_acct = refl
at_own_number sys_phys = refl
at_own_number sys_lock = refl
at_own_number sys_ioctl = refl
at_own_number sys_fcntl = refl
at_own_number sys_mpx = refl
at_own_number sys_setpgid = refl
at_own_number sys_ulimit = refl
at_own_number sys_uname = refl
at_own_number sys_umask = refl
at_own_number sys_chroot = refl
at_own_number sys_ustat = refl
at_own_number sys_dup2 = refl
at_own_number sys_getppid = refl
at_own_number sys_getpgrp = refl
at_own_number sys_setsid = refl
at_own_number sys_sigaction = refl
at_own_number sys_sgetmask = refl
at_own_number sys_ssetmask = refl
at_own_number sys_setreuid = refl
at_own_number sys_setregid = refl
at_own_number sys_sigsuspend = refl
at_own_number sys_sigpending = refl
at_own_number sys_sethostname = refl
at_own_number sys_setrlimit = refl
at_own_number sys_getrlimit = refl
at_own_number sys_getrusage = refl
at_own_number sys_gettimeofday = refl
at_own_number sys_settimeofday = refl
at_own_number sys_getgroups = refl
at_own_number sys_setgroups = refl
at_own_number sys_select = refl
at_own_number sys_symlink = refl
at_own_number sys_lstat = refl
at_own_number sys_readlink = refl
at_own_number sys_uselib = refl
at_own_number sys_klock = refl
at_own_number sys_kunlock = refl
at_own_number sys_kdebug = refl

-- The calls of a list have the numbers from `k` on.
are_from : ℕ → List Call → Bool
are_from k [] = true
are_from k (c ∷ cs) = nr c == k && are_from (suc k) cs

nr-get_elem? :
    (k : ℕ) (cs : List Call) (i : ℕ)
    → are_from k cs ≡ true
    → i < length cs
    → (c : Call) × (get_elem? cs i ≡ some c) × (nr c ≡ k + i)
unfolding are_from
nr-get_elem? k [] i from lt = absurd (omega arith)
nr-get_elem? k (c ∷ cs) zero from lt = (c, refl, ground arith)
nr-get_elem? k (c ∷ cs) (suc i) from lt =
    let (d, e, number) = nr-get_elem? (suc k) cs i (ground arith) (omega arith) in
    (d, e, number ∙ omega arith)

get_elem?-behind : (cs : List Call) (i : ℕ) → length cs ≤ i → get_elem? cs i ≡ none
get_elem?-behind [] i le = refl
get_elem?-behind (c ∷ cs) zero le = absurd (omega arith)
get_elem?-behind (c ∷ cs) (suc i) le = get_elem?-behind cs i (omega arith)

numbers_in_order : are_from 0 sys_call_table ≡ true
unfolding nr are_from
numbers_in_order = refl

-- Every call stands in the table at its own number; each number below `nr_syscalls` is the number of
-- the call that stands there; and a number from `nr_syscalls` on has no entry.
pub sys_call_table-nr :
    ((c : Call) → get_elem? sys_call_table (nr c) ≡ some c)
    × ((i : ℕ) → i < nr_syscalls → (c : Call) × (get_elem? sys_call_table i ≡ some c) × (nr c ≡ i))
    × ((i : ℕ) → nr_syscalls ≤ i → get_elem? sys_call_table i ≡ none)
sys_call_table-nr = (
  at_own_number,
  λ i lt.
      let (c, e, number) = nr-get_elem? 0 sys_call_table i numbers_in_order lt in
      (c, e, number ∙ omega arith),
  λ i le. get_elem?-behind sys_call_table i le,
)
