-- ===== src/Fork/Copy.antt =====
-- `copy_mem` and `copy_process` of kernel/fork.c.
use mockos.Prelude.{
  update, ℕ, zero, suc, ◌+◌, ◌-◌, ◌*◌, ◌/◌, ◌%◌, ◌^◌, ◌==◌, ltb, not, Bool, false, if◌then◌else◌,
}
use mockos.Mm.State.{Mem}
use mockos.Mm.FreePage.{get_free_page}
use mockos.Mm.Tables.{Panic, Outcome, copied, out_of_memory, halted, copy_page_tables}
use mockos.Mm.Protect.{un_wp_page, lin2phy}
use mockos.Sched.{TaskPtr}
use mockos.Segment.{Desc, get_base, set_tss_desc, set_ldt_desc}
use mockos.Segment.Fields.{limit, flags}
use mockos.Segment.Tables.{put}
use mockos.Fork.Change.{Regs, store, move_task, start_task, set_math, link_tasks, set_running}
use mockos.Fork.Task.{Math, Task, ldt_offset, tss_offset}

-- What `copy_process` reads and writes: the memory, the tasks with the pointers to them, `gdt`,
-- the two counts that it raises (`f_count` of files, `i_count` of inodes), and the coprocessor with
-- the flag that traps its use.
pub record Machine : Type 0 where
  pub mem : Mem
  pub task : ℕ → TaskPtr
  pub tasks : TaskPtr → Task
  pub current : TaskPtr
  pub gdt : ℕ → Desc
  pub last_pid : ℕ
  pub jiffies : ℕ
  pub last_task_used_math : TaskPtr
  pub math : Math
  pub task_switched : Bool
  pub f_count : ℕ → ℕ
  pub i_count : ℕ → ℕ

-- A change of the task at `p`.
abbrev pub edit : TaskPtr → (Task → Task) → Machine → Machine
edit p f s = record s { tasks = store s.tasks p (f (s.tasks p)) }

-- The descriptor's limit in bytes, and one more: `lsl` reads the table that the processor has
-- loaded, that of the current task. With the flag of 4 KB units the low 12 bits are ones.
unfoldable pub get_limit : Desc → ℕ
get_limit p =
    let bytes = if flags p / 2 ^ 3 == 1 then limit p * 4096 + 4095 else limit p in
    (bytes + 1) % 2 ^ 32

-- The calls of `panic` on the way, which never return.
pub data ForkPanic : Type 0 where
  separate_spaces bad_data_limit : ForkPanic
  tables : Panic → ForkPanic

pub data Copied : Type 0 where
  went_on : Machine → Copied
  stopped : ForkPanic → Machine → Copied

-- copy_page_tables(...);
abbrev pub ignore_result : Outcome → Machine → Copied
ignore_result (copied m) s = went_on (record s { mem = m })
ignore_result (out_of_memory m) s = went_on (record s { mem = m })
ignore_result (halted e m) s = stopped (tables e) (record s { mem = m })

-- nr * TASK_SIZE, in an `int` that is stored as an `unsigned long`
abbrev pub task_base : ℕ → ℕ
task_base nr = nr * 0x400_0000 % 2 ^ 32

-- The result of `copy_mem` is 0 whenever it returns.
unfoldable pub copy_mem : (nr : ℕ) (p : TaskPtr) → Machine → Copied
copy_mem nr p s =
    let ldt = (s.tasks s.current).ldt in
    let code_limit = get_limit (ldt 1) in
    let data_limit = get_limit (ldt 2) in
    let old_code_base = get_base (ldt 1) in
    let old_data_base = get_base (ldt 2) in
    let base = task_base nr in
    if not (old_data_base == old_code_base)
    then stopped separate_spaces s
    else if ltb data_limit code_limit
    then stopped bad_data_limit s
    else ignore_result (copy_page_tables old_data_base base data_limit s.mem)
        (edit p (move_task base) s)

-- clts; fnsave p->tss.i387; frstor p->tss.i387: the coprocessor keeps its state.
unfoldable pub save_math : TaskPtr → Machine → Machine
save_math p s =
    let own = s.last_task_used_math == s.current in
    record s {
      tasks = if own then store s.tasks p (set_math s.math (s.tasks p)) else s.tasks;
      task_switched = if own then false else s.task_switched;
    }

-- (esp + 4095) / 4096 * 4096 of a `long`: the division goes towards 0 on both sides of it.
unfoldable pub round_page : ℕ → ℕ
round_page esp =
    let x = (esp + 4095) % 2 ^ 32 in
    if ltb x (2 ^ 31) then x / 4096 * 4096 else (2 ^ 32 - (2 ^ 32 - x) / 4096 * 4096) % 2 ^ 32

-- The child's own copy of the page of its user stack.
unfoldable pub unshare_stack : (esp : ℕ) (p : TaskPtr) → Machine → Machine
unshare_stack esp p s =
    let new_data_base = get_base ((s.tasks p).ldt 2) in
    let stack_address = (round_page esp + new_data_base + 2 ^ 32 - 4096) % 2 ^ 32 in
    record s { mem = un_wp_page (lin2phy s.mem stack_address) s.mem }

-- A count behind a pointer, in an `unsigned short`, if the pointer is not NULL.
abbrev pub add_use : ℕ → (ℕ → ℕ) → ℕ → ℕ
add_use f count = if f == 0 then count else update count f ((count f + 1) % 2 ^ 16)

-- for (i = 0; i < NR_OPEN; i++), `n` rounds from `i` on
unfoldable pub add_files : (n i : ℕ) (filp count : ℕ → ℕ) → ℕ → ℕ
add_files zero i filp count = count
add_files (suc n) i filp count = add_files n (i + 1) filp (add_use (filp i) count)

unfoldable pub share_files : TaskPtr → Machine → Machine
share_files p s =
    let c = s.tasks s.current in
    record s {
      f_count = add_files 20 0 (s.tasks p).filp s.f_count;
      i_count = add_use c.library (add_use c.executable (add_use c.root (add_use c.pwd s.i_count)));
    }

unfoldable pub set_descs : (nr : ℕ) (p : TaskPtr) → Machine → Machine
set_descs nr p s = record s {
  gdt =
      put (put s.gdt (nr * 2 + 4) (set_tss_desc ((p + tss_offset) % 2 ^ 32))) (nr * 2 + 5)
        (set_ldt_desc ((p + ldt_offset) % 2 ^ 32));
}

abbrev pub link_task : TaskPtr → Machine → Machine
link_task p s = record s { tasks = link_tasks s.current p s.tasks }

-- `retry` is -EAGAIN; `forked` has the number returned.
pub data Forked : Type 0 where
  retry : Machine → Forked
  forked : ℕ → Machine → Forked
  panicked : ForkPanic → Machine → Forked

-- From the unsharing of the stack to the end.
unfoldable pub finish_fork : (nr : ℕ) (p : TaskPtr) → Regs → Machine → Machine
finish_fork nr p r s =
    edit p set_running (link_task p (set_descs nr p (share_files p (unshare_stack r.esp p s))))

abbrev pub after_copy_mem : (nr : ℕ) (p : TaskPtr) → Regs → Copied → Forked
after_copy_mem nr p r (went_on s) = forked s.last_pid (finish_fork nr p r s)
after_copy_mem nr p r (stopped e s) = panicked e s

-- The task in its slot and its fields up to the call of `copy_mem`.
unfoldable pub prepare : (nr : ℕ) (p : TaskPtr) → Regs → Machine → Machine
prepare nr p r s =
    let s₁ = record s { task = update s.task nr p } in
    let s₂ = edit p (λ _. s₁.tasks s₁.current) s₁ in
    save_math p (edit p (start_task nr p s₂.last_pid s₂.jiffies r) s₂)

unfoldable pub copy_process : (nr : ℕ) → Regs → Machine → Forked
copy_process nr r s =
    let (p, m) = get_free_page s.mem in
    let s' = prepare nr p r (record s { mem = m }) in
    if p == 0 then retry (record s { mem = m }) else after_copy_mem nr p r (copy_mem nr p s')
