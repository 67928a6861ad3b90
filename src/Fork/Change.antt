-- ===== src/Fork/Change.antt =====
-- The stores of `copy_mem` and `copy_process` of kernel/fork.c to tasks.
use mockos.Prelude.{ℕ, ◌+◌, ◌%◌, ◌^◌, ◌==◌, if◌then◌else◌}
use mockos.Sched.{TaskPtr, running, uninterruptible}
use mockos.Segment.{set_base}
use mockos.Segment.Tables.{put}
use mockos.Fork.Task.{Math, Task, ldt_selector}

-- What the entry of the system call leaves on the stack, without the return addresses.
pub record Regs : Type 0 where
  pub ebp : ℕ
  pub edi : ℕ
  pub esi : ℕ
  pub gs : ℕ
  pub ebx : ℕ
  pub ecx : ℕ
  pub edx : ℕ
  pub orig_eax : ℕ
  pub fs : ℕ
  pub es : ℕ
  pub ds : ℕ
  pub eip : ℕ
  pub cs : ℕ
  pub eflags : ℕ
  pub esp : ℕ
  pub ss : ℕ

-- `m` with `t` at the pointer `p`
unfoldable pub store : (TaskPtr → Task) → TaskPtr → Task → TaskPtr → Task
store m p t q = if p == q then t else m q

-- The new task's segments, at `base`.
unfoldable pub move_task : ℕ → Task → Task
move_task base t =
    let ldt₁ = put t.ldt 1 (set_base (t.ldt 1) base) in
    record t { start_code = base; ldt = put ldt₁ 2 (set_base (ldt₁ 2) base) }

-- The changes to the copy of the parent's task up to the test of the coprocessor.
unfoldable pub start_task : (nr : ℕ) (p : TaskPtr) (last_pid jiffies : ℕ) → Regs → Task → Task
start_task nr p last_pid jiffies r t = record t {
  state = uninterruptible;
  pid = last_pid;
  counter = t.priority;
  signal = 0;
  alarm = 0;
  leader = 0;
  utime = 0;
  stime = 0;
  cutime = 0;
  cstime = 0;
  start_time = jiffies;
  tss = record t.tss {
    back_link = 0;
    esp0 = (4096 + p) % 2 ^ 32;
    ss0 = 0x10;
    eip = r.eip;
    eflags = r.eflags;
    eax = 0;
    ecx = r.ecx;
    edx = r.edx;
    ebx = r.ebx;
    esp = r.esp;
    ebp = r.ebp;
    esi = r.esi;
    edi = r.edi;
    es = r.es % 2 ^ 16;
    cs = r.cs % 2 ^ 16;
    ss = r.ss % 2 ^ 16;
    ds = r.ds % 2 ^ 16;
    fs = r.fs % 2 ^ 16;
    gs = r.gs % 2 ^ 16;
    ldt = ldt_selector nr;
    trace_bitmap = 2 ^ 31;
  };
}

unfoldable pub set_math : Math → Task → Task
set_math math t = record t { tss = record t.tss { i387 = math } }

-- The stores to the links between parent, children and siblings, in their order.
unfoldable pub set_parent : TaskPtr → Task → Task
set_parent parent t = record t { p_pptr = parent; p_cptr = 0; p_ysptr = 0 }

unfoldable pub set_older : TaskPtr → Task → Task
set_older older t = record t { p_osptr = older }

unfoldable pub set_younger : TaskPtr → Task → Task
set_younger younger t = record t { p_ysptr = younger }

unfoldable pub set_youngest : TaskPtr → Task → Task
set_youngest youngest t = record t { p_cptr = youngest }

-- if (p->p_osptr) p->p_osptr->p_ysptr = p; current->p_cptr = p
unfoldable pub link_older : (current p older : TaskPtr) → (TaskPtr → Task) → TaskPtr → Task
link_older current p older m =
    let m' = if older == 0 then m else store m older (set_younger p (m older)) in
    store m' current (set_youngest p (m' current))

unfoldable pub link_tasks : (current p : TaskPtr) → (TaskPtr → Task) → TaskPtr → Task
link_tasks current p m =
    let m₁ = store m p (set_parent current (m p)) in
    let m₂ = store m₁ p (set_older (m₁ current).p_cptr (m₁ p)) in
    link_older current p (m₂ p).p_osptr m₂

unfoldable pub set_running : Task → Task
set_running t = record t { state = running }
