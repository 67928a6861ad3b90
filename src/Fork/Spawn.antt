-- ===== src/Fork/Spawn.antt =====
-- The system call fork, from `sys_fork` of kernel/sys_call.s on through kernel/fork.c: what the process
-- table is afterwards, and that the child gets its turn.
use mockos.Prelude.{
  ℕ, ◌^◌, ◌<◌, ◌≤◌, ◌≡◌, ◌≢◌, ◌⊎◌, refl, sym, ◌∙◌, subst, inl, inr, arith, ◌==◌, false, Option,
  some, Bool-cases, ==→eq,
}
use mockos.Mm.State.{Mem, paging_pages}
use mockos.Mm.FreePage.{get_free_page_cases, get_free_page-ne-zero}
use mockos.Mm.Tables.{copied, out_of_memory}
use mockos.Mm.Protect.{InUse, apart}
use mockos.Segment.{get_base}
use mockos.Sched.{nr_tasks}
use mockos.Fork.{clashes}
use mockos.Fork.Pid.{Slot, free, full, find_empty_process_total}
use mockos.Fork.Copy.{Machine, Forked, retry, forked, get_limit}
use mockos.Fork.Change.{Regs}
use mockos.Fork.Child.{parent, child_page, copied_tables, IsForkable}
use mockos.Fork.Born.{IsBorn, copy_process-IsBorn}
use mockos.Fork.System.{processes, fork_at, sys_fork, IsFresh}

-- A page in use is not given out while another is free.
page_ne :
    (s : Machine) (i q : ℕ)
    → i < paging_pages
    → s.mem.mem_map i ≡ 0
    → InUse s.mem q
    → q ≢ child_page s
page_ne s i q lt none_used held = elim (get_free_page_cases s.mem) [
  | inl (j, new) ↦ λ e. omega (arith, apart q new held)
  | inr x ↦ absurd (x.none_free i lt none_used)
]

-- What a fork needs: a free page, the tasks in pages in use, one segment base, a data segment no
-- smaller than the code segment, and for every free slot no panic in `copy_page_tables`.
pub record CanFork (s : Machine) : Type 0 where
  pub free_page : ℕ
  pub in_map : free_page < paging_pages
  pub is_free : s.mem.mem_map free_page ≡ 0
  pub held : (j : ℕ) → j < nr_tasks → s.task j ≢ 0 → InUse s.mem (s.task j)
  pub current_held : InUse s.mem s.current
  pub child_held : InUse s.mem (parent s).p_cptr
  pub no_loop : (parent s).p_cptr ≢ s.current
  pub one_space : get_base ((parent s).ldt 2) ≡ get_base ((parent s).ldt 1)
  pub fits : get_limit ((parent s).ldt 1) ≤ get_limit ((parent s).ldt 2)
  pub goes_on :
      (nr : ℕ)
      → 0 < nr
      → nr < nr_tasks
      → s.task nr ≡ 0
      → (m : Mem) × ((copied_tables nr s ≡ copied m) ⊎ (copied_tables nr s ≡ out_of_memory m))

CanFork-IsForkable :
    (nr p : ℕ) (s : Machine)
    → CanFork s
    → 0 < nr
    → nr < nr_tasks
    → s.task nr ≡ 0
    → IsForkable nr (record s { last_pid = p })
CanFork-IsForkable nr p s c lo hi empty = record {
  one_space = c.one_space;
  fits = c.fits;
  goes_on = c.goes_on nr lo hi empty;
  page_apart = page_ne s c.free_page s.current c.in_map c.is_free c.current_held;
  child_apart = page_ne s c.free_page (parent s).p_cptr c.in_map c.is_free c.child_held;
  no_loop = c.no_loop;
}

pub CanFork-IsFresh : (p : ℕ) (s : Machine) → CanFork s → IsFresh (record s { last_pid = p })
CanFork-IsFresh p s c j lt = elim (Bool-cases (s.task j == 0)) [
  | inl e ↦ λ h. get_free_page-ne-zero s.mem (sym h ∙ ==→eq (s.task j) 0 e)
  | inr e ↦ page_ne s c.free_page (s.task j) c.in_map c.is_free (c.held j lt (λ z. ground arith))
]

-- How a fork ends: with a child, or with -EAGAIN because the slots 1 to 63 are taken.
pub data Ends (r : Regs) (s : Machine) : Forked → Type 0 where
  born :
      (nr p : ℕ) (t : Machine)
      → 0 < nr
      → nr < nr_tasks
      → s.task nr ≡ 0
      → ((k : ℕ) → 0 < k → k < nr → s.task k ≢ 0)
      → 0 < p
      → p < 2 ^ 31
      → ((j : ℕ) → j < nr_tasks → clashes (processes s) j p ≡ false)
      → IsBorn nr r (record s { last_pid = p }) t
      → Ends r s (forked p t)
  table_full :
      (p : ℕ)
      → p < 2 ^ 31
      → ((j : ℕ) → j < nr_tasks → clashes (processes s) j p ≡ false)
      → ((k : ℕ) → 0 < k → k < nr_tasks → s.task k ≢ 0)
      → Ends r s (retry (record s { last_pid = p }))

fork_at-Ends :
    (r : Regs) (s : Machine) (slot : Option ℕ) (p : ℕ)
    → CanFork s
    → Slot (processes s) 63 1 slot
    → 0 < p
    → p < 2 ^ 31
    → ((j : ℕ) → j < nr_tasks → clashes (processes s) j p ≡ false)
    → Ends r s (fork_at r (record s { last_pid = p }) slot)
fork_at-Ends r s slot p c (free nr lo hi empty before) pos small unborne =
    let f = CanFork-IsForkable nr p s c (omega arith) (omega arith) empty in
    let (t, e, b) = copy_process-IsBorn nr r (record s { last_pid = p }) f in
    subst (Ends r s) (sym e)
      (born nr p t (omega arith) (omega arith) empty before pos small unborne b)
fork_at-Ends r s slot p c (full all) pos small unborne = table_full p small unborne all

pub sys_fork-Ends :
    (r : Regs) (s : Machine)
    → CanFork s
    → s.last_pid < 2 ^ 31
    → (f : Forked) × (sys_fork r s ≡ some f) × Ends r s f
unfolding sys_fork
sys_fork-Ends r s c small =
    let (slot, p, e, found, pos, lt, unborne) = find_empty_process_total (processes s) small in
    (
      fork_at r (record s { last_pid = p }) slot,
      rw (e, sys_fork) refl,
      fork_at-Ends r s slot p c found pos lt unborne,
    )
