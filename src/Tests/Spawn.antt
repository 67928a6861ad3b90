-- ===== src/Tests/Spawn.antt =====
-- kernel/fork.c on a machine whose only free slot is 1.
use mockos.Calls.{Call, Registers, syscall0}
use mockos.Calls.Answer.{machine_call, Answers, fork-Answers}
use mockos.Prelude.{
  Option, none, ◌≤◌, ◌*◌, ℕ, ◌+◌, ◌≡◌, ◌⊎◌, refl, inl, arith, ◌==◌, if◌then◌else◌, some, true,
  subst, sym,
}
use mockos.Mm.State.{Mem}
use mockos.Mm.FreePage.{get_free_page, scan_free, claim, clear_words}
use mockos.Mm.Tables.{copied, out_of_memory, copy_page_tables, copy_dirs, copy_dir}
use mockos.Segment.{get_base}
use mockos.Fork.Task.{init_task}
use mockos.Fork.Copy.{Machine, Forked, forked, copy_process, get_limit}
use mockos.Fork.Change.{Regs}
use mockos.Fork.Child.{parent, copied_tables, IsForkable}
use mockos.Fork.Born.{IsBorn, copy_process-IsBorn}
use mockos.Fork.System.{sys_fork, IsSystem}
use mockos.Fork.Spawn.{CanFork}
use mockos.Fork.Table.{Spawns, entry, entries, after, returned, sys_fork-Spawns}
use mockos.Fork.Turns.{GetsTurn, sys_fork-IsSystem, sys_fork-GetsTurn}

abbrev no_pages : Mem
no_pages = record {
  mem_map = λ _. 0;
  before_map = 0;
  word = λ _. 0;
  high_memory = 0;
  invalidations = 0;
}

abbrev busy : Machine
busy = record {
  mem = no_pages;
  task = λ j. if j == 1 then 0 else j + 1;
  tasks = λ q. record (init_task q 0) { pid = q };
  current = 1;
  gdt = λ _. record { a = 0; b = 0 };
  last_pid = 0;
  jiffies = 7;
  last_task_used_math = 0;
  math = (init_task 0 0).tss.i387;
  task_switched = true;
  f_count = λ _. 0;
  i_count = λ _. 0;
}

abbrev regs : Regs
regs = record {
  ebp = 1;
  edi = 2;
  esi = 3;
  gs = 0x17;
  ebx = 4;
  ecx = 5;
  edx = 6;
  orig_eax = 2;
  fs = 0x17;
  es = 0x17;
  ds = 0x17;
  eip = 0x1234;
  cs = 0xf;
  eflags = 0x202;
  esp = 0x8000;
  ss = 0x17;
}

copies : (m : Mem) × (copied_tables 1 busy ≡ copied m)
unfolding copy_page_tables get_base get_limit get_free_page claim scan_free clear_words copy_dirs
    copy_dir
copies = (_, refl)

only_free : (nr : ℕ) → busy.task nr ≡ 0 → nr ≡ 1
only_free nr e = ground arith

one_space : get_base ((parent busy).ldt 2) ≡ get_base ((parent busy).ldt 1)
unfolding get_base
one_space = refl

fits : get_limit ((parent busy).ldt 1) ≤ get_limit ((parent busy).ldt 2)
unfolding get_limit
fits = omega arith

limit_640k : get_limit ((parent busy).ldt 2) ≡ 640 * 1024
unfolding get_limit
limit_640k = refl

goes_on :
    (nr : ℕ)
    → busy.task nr ≡ 0
    → (m : Mem) × ((copied_tables nr busy ≡ copied m) ⊎ (copied_tables nr busy ≡ out_of_memory m))
goes_on nr e =
    subst
      (λ k.
        (m : Mem) × ((copied_tables k busy ≡ copied m) ⊎ (copied_tables k busy ≡ out_of_memory m)))
      (sym (only_free nr e)) (copies.0, inl copies.1)

busy-CanFork : CanFork busy
busy-CanFork = record {
  free_page = 0;
  in_map = omega arith;
  is_free = refl;
  held = λ j lt ne. inl (ground arith);
  current_held = inl (omega arith);
  child_held = inl (omega arith);
  no_loop = λ e. ground arith;
  one_space = one_space;
  fits = fits;
  goes_on = λ nr lo hi e. goes_on nr e;
}

busy-IsSystem : IsSystem busy 0
busy-IsSystem = record {
  table = record {
    distinct = λ i j li lj ne e. ground arith;
    in_range = omega arith;
    here = refl;
    exists = λ e. ground arith;
  };
  numbers = λ i j li lj ne f e. ground arith;
  last = omega arith;
}

busy-IsForkable : IsForkable 1 busy
unfolding get_free_page claim scan_free
busy-IsForkable = record {
  one_space = one_space;
  fits = fits;
  goes_on = goes_on 1 refl;
  page_apart = λ e. ground arith;
  child_apart = λ e. ground arith;
  no_loop = λ e. ground arith;
}

copy_process-IsBorn_example :
    (t : Machine) × (copy_process 1 regs busy ≡ forked 0 t) × IsBorn 1 regs busy t
copy_process-IsBorn_example = copy_process-IsBorn 1 regs busy busy-IsForkable

sys_fork-Spawns_example :
    (f : Forked) × (sys_fork regs busy ≡ some f)
    × Spawns (entries busy) (entry (parent busy)) (entries (after f)) (returned f)
sys_fork-Spawns_example = sys_fork-Spawns regs busy busy-CanFork (omega arith)

sys_fork-IsSystem_example : (f : Forked) × (sys_fork regs busy ≡ some f) × IsSystem (after f) 0
sys_fork-IsSystem_example = sys_fork-IsSystem regs busy 0 busy-CanFork busy-IsSystem

sys_fork-GetsTurn_example :
    (p : ℕ) × (t : Machine) × (sys_fork regs busy ≡ some (forked p t)) × GetsTurn busy t
sys_fork-GetsTurn_example =
    sys_fork-GetsTurn regs busy 0 1 busy-CanFork busy-IsSystem (omega arith) (omega arith) refl

abbrev no_others : Call → Registers → Machine → Option (ℕ × Machine)
no_others _ _ _ = none

abbrev no_registers : Registers
no_registers = record { ebx = 0; ecx = 0; edx = 0 }

fork-Answers_example :
    (value errno' : ℕ) × (t : Machine) × (syscall0
        (machine_call no_others regs)
        Call.sys_fork
        no_registers
        2
        busy
      ≡ some (value, errno', t))
    × Answers busy t 2 value errno'
fork-Answers_example = fork-Answers no_others regs no_registers 2 busy busy-CanFork (omega arith)
