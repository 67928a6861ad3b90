-- ===== src/Fork/Task.antt =====
-- The tasks of include/linux/sched.h, with what they hold of include/signal.h and sys/resource.h.
use mockos.Prelude.{ℕ, ◌+◌, ◌-◌, ◌*◌, ◌^◌, ◌==◌, if◌then◌else◌}
use mockos.Sched.{TaskState, TaskPtr, running}
use mockos.Segment.{Desc}

-- A `long`, an `int` and a pointer are their patterns of 32 bits.
pub record Sigaction : Type 0 where
  pub sa_handler : ℕ
  pub sa_mask : ℕ
  pub sa_flags : ℕ
  pub sa_restorer : ℕ

pub record Rlimit : Type 0 where
  pub rlim_cur : ℕ
  pub rlim_max : ℕ

-- `struct i387_struct`
pub record Math : Type 0 where
  pub cwd : ℕ
  pub swd : ℕ
  pub twd : ℕ
  pub fip : ℕ
  pub fcs : ℕ
  pub foo : ℕ
  pub fos : ℕ
  pub st_space : ℕ → ℕ

-- `struct tss_struct`
pub record Tss : Type 0 where
  pub back_link : ℕ
  pub esp0 : ℕ
  pub ss0 : ℕ
  pub esp1 : ℕ
  pub ss1 : ℕ
  pub esp2 : ℕ
  pub ss2 : ℕ
  pub cr3 : ℕ
  pub eip : ℕ
  pub eflags : ℕ
  pub eax : ℕ
  pub ecx : ℕ
  pub edx : ℕ
  pub ebx : ℕ
  pub esp : ℕ
  pub ebp : ℕ
  pub esi : ℕ
  pub edi : ℕ
  pub es : ℕ
  pub cs : ℕ
  pub ss : ℕ
  pub ds : ℕ
  pub fs : ℕ
  pub gs : ℕ
  pub ldt : ℕ
  pub trace_bitmap : ℕ
  pub i387 : Math

-- `struct task_struct`; an array is a function of the index.
pub record Task : Type 0 where
  pub state : TaskState
  pub counter : ℕ
  pub priority : ℕ
  pub signal : ℕ
  pub sigaction : ℕ → Sigaction
  pub blocked : ℕ
  pub exit_code : ℕ
  pub start_code : ℕ
  pub end_code : ℕ
  pub end_data : ℕ
  pub brk : ℕ
  pub start_stack : ℕ
  pub pid : ℕ
  pub pgrp : ℕ
  pub session : ℕ
  pub leader : ℕ
  pub groups : ℕ → ℕ
  pub p_pptr : TaskPtr
  pub p_cptr : TaskPtr
  pub p_ysptr : TaskPtr
  pub p_osptr : TaskPtr
  pub uid : ℕ
  pub euid : ℕ
  pub suid : ℕ
  pub gid : ℕ
  pub egid : ℕ
  pub sgid : ℕ
  pub timeout : ℕ
  pub alarm : ℕ
  pub utime : ℕ
  pub stime : ℕ
  pub cutime : ℕ
  pub cstime : ℕ
  pub start_time : ℕ
  pub rlim : ℕ → Rlimit
  pub flags : ℕ
  pub used_math : ℕ
  pub tty : ℕ
  pub umask : ℕ
  pub pwd : ℕ
  pub root : ℕ
  pub executable : ℕ
  pub library : ℕ
  pub close_on_exec : ℕ
  pub filp : ℕ → ℕ
  pub ldt : ℕ → Desc
  pub tss : Tss

-- Where `ldt` and `tss` stand in a task: behind 920 and 944 bytes.
abbrev pub ldt_offset : ℕ
ldt_offset = 920

abbrev pub tss_offset : ℕ
tss_offset = 944

-- _LDT(n), a shift of an `unsigned long`
abbrev pub ldt_selector : ℕ → ℕ
ldt_selector n = n * 16 + 5 * 8

-- INIT_TASK: the first task at `address`, with the page directory at `pg_dir`; 2 ^ 32 - 1 is
-- -1, NOGROUP too, and the rest of an array with one value given is 0.
abbrev pub init_task : (address pg_dir : ℕ) → Task
init_task address pg_dir = record {
  state = running;
  counter = 15;
  priority = 15;
  signal = 0;
  sigaction = λ _. record { sa_handler = 0; sa_mask = 0; sa_flags = 0; sa_restorer = 0 };
  blocked = 0;
  exit_code = 0;
  start_code = 0;
  end_code = 0;
  end_data = 0;
  brk = 0;
  start_stack = 0;
  pid = 0;
  pgrp = 0;
  session = 0;
  leader = 0;
  groups = λ i. if i == 0 then 2 ^ 32 - 1 else 0;
  p_pptr = address;
  p_cptr = 0;
  p_ysptr = 0;
  p_osptr = 0;
  uid = 0;
  euid = 0;
  suid = 0;
  gid = 0;
  egid = 0;
  sgid = 0;
  timeout = 0;
  alarm = 0;
  utime = 0;
  stime = 0;
  cutime = 0;
  cstime = 0;
  start_time = 0;
  rlim = λ _. record { rlim_cur = 0x7fff_ffff; rlim_max = 0x7fff_ffff };
  flags = 0;
  used_math = 0;
  tty = 2 ^ 32 - 1;
  umask = 18;
  pwd = 0;
  root = 0;
  executable = 0;
  library = 0;
  close_on_exec = 0;
  filp = λ _. 0;
  ldt = λ i.
      if i == 1
      then record { a = 0x9f; b = 0xc0_fa00 }
      else if i == 2
      then record { a = 0x9f; b = 0xc0_f200 }
      else record { a = 0; b = 0 };
  tss = record {
    back_link = 0;
    esp0 = 4096 + address;
    ss0 = 0x10;
    esp1 = 0;
    ss1 = 0;
    esp2 = 0;
    ss2 = 0;
    cr3 = pg_dir;
    eip = 0;
    eflags = 0;
    eax = 0;
    ecx = 0;
    edx = 0;
    ebx = 0;
    esp = 0;
    ebp = 0;
    esi = 0;
    edi = 0;
    es = 0x17;
    cs = 0x17;
    ss = 0x17;
    ds = 0x17;
    fs = 0x17;
    gs = 0x17;
    ldt = ldt_selector 0;
    trace_bitmap = 2 ^ 31;
    i387 = record {
      cwd = 0;
      swd = 0;
      twd = 0;
      fip = 0;
      fcs = 0;
      foo = 0;
      fos = 0;
      st_space = λ _. 0;
    };
  };
}
