-- ===== src/Fork/Born.antt =====
-- What `copy_process` of kernel/fork.c leaves: the child, its relatives and the tables.
use mockos.Mm.State.{Mem}
use mockos.Mm.Tables.{copied, out_of_memory}
use mockos.Mm.Protect.{un_wp_page, lin2phy}
use mockos.Segment.{set_ldt_desc, set_tss_desc}
use mockos.Prelude.{
  ◌⊎◌, ◌<◌, update, ◌+◌, ◌*◌, ◌%◌, ◌^◌, ◌≡◌, ◌≢◌, refl, arith, ◌==◌, if◌then◌else◌, ℕ,
}
use mockos.Fork.Child.{
  copied_tables, child_page, IsForkable, child, result, copy_process-result, parent,
}
use mockos.Sched.{TaskPtr}
use mockos.Fork.Copy.{
  Machine, save_math, finish_fork, unshare_stack, share_files, set_descs, prepare, copy_process,
  forked,
}
use mockos.Fork.Change.{Regs}
use mockos.Fork.Counts.{uses, inode_uses, stack_page}
use mockos.Fork.Return.{
  result-child, result-parent, result-sibling, result-other, result-mem, result-files,
  result-inodes,
}

-- What a call leaves, seen from the state before it: the child in its slot with a page of its own,
-- the links to its relatives, its two descriptors, and all the rest as before.
pub record IsBorn (nr : ℕ) (r : Regs) (s t : Machine) : Type 0 where
  pub slots : t.task ≡ update s.task nr (child_page s)
  pub new_task : t.tasks (child_page s) ≡ child nr r s
  pub old_task : t.tasks s.current ≡ record (parent s) { p_cptr = child_page s }
  pub sibling :
      (parent s).p_cptr ≢ 0
      → t.tasks (parent s).p_cptr ≡ record (s.tasks (parent s).p_cptr) { p_ysptr = child_page s }
  pub others :
      (q : TaskPtr)
      → q ≢ child_page s
      → q ≢ s.current
      → q ≢ (parent s).p_cptr
      → t.tasks q ≡ s.tasks q
  pub descs :
      (j : ℕ)
      → t.gdt j ≡ (
          if j == nr * 2 + 5
          then set_ldt_desc ((child_page s + 920) % 2 ^ 32)
          else if j == nr * 2 + 4
          then set_tss_desc ((child_page s + 944) % 2 ^ 32)
          else s.gdt j)
  pub memory :
      (m : Mem) × ((copied_tables nr s ≡ copied m) ⊎ (copied_tables nr s ≡ out_of_memory m))
      × (t.mem ≡ un_wp_page (lin2phy m (stack_page r.esp (child nr r s))) m)
  pub files :
      (q : ℕ)
      → q ≢ 0
      → s.f_count q < 2 ^ 16
      → t.f_count q ≡ (s.f_count q + uses q (parent s).filp 20 0) % 2 ^ 16
  pub inodes :
      (q : ℕ)
      → q ≢ 0
      → s.i_count q < 2 ^ 16
      → t.i_count q ≡ (s.i_count q + inode_uses q (parent s)) % 2 ^ 16
  pub same_current : t.current ≡ s.current
  pub same_pid : t.last_pid ≡ s.last_pid

-- If the current task's code and data segment have the same base, the data segment is not the
-- smaller one, `copy_page_tables` returns, with 0 or with -1, and the new page holds neither the
-- parent nor the parent's youngest child, which is not the parent itself: `copy_process` returns
-- `last_pid`. The child inherits all but the fields that `child` names, with its segments at
-- nr * TASK_SIZE and the registers given, eax 0; it is the youngest child of its parent and linked
-- with the one before; it stands in the slot `nr`, is runnable, and `gdt` has its two descriptors;
-- no other task, slot or descriptor changes. The memory is what `copy_page_tables` left, with the page of
-- the child's stack unshared; the counts of the parent's files, below 2 ^ 16, and of its four inodes go up
-- by one for each use.
pub copy_process-IsBorn :
    (nr : ℕ) (r : Regs) (s : Machine)
    → IsForkable nr s
    → (t : Machine) × (copy_process nr r s ≡ forked s.last_pid t) × IsBorn nr r s t
unfolding finish_fork unshare_stack share_files set_descs prepare save_math
copy_process-IsBorn nr r s f = (
  result nr r s f,
  copy_process-result nr r s f,
  record {
    slots = refl;
    new_task = result-child nr r s f;
    old_task = result-parent nr r s f;
    sibling = result-sibling nr r s f;
    others = result-other nr r s f;
    descs = λ j. ground arith;
    memory = (f.goes_on.0, f.goes_on.1, result-mem nr r s f);
    files = result-files nr r s f;
    inodes = result-inodes nr r s f;
    same_current = refl;
    same_pid = refl;
  },
)
