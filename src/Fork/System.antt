-- ===== src/Fork/System.antt =====
-- `sys_fork`: `find_empty_process` and `copy_process` of kernel/fork.c as kernel/sys_call.s calls them.
use mockos.Prelude.{
  ℕ, ◌^◌, ◌<◌, ◌≡◌, ◌≢◌, sym, ap, ◌∙◌, subst, inl, inr, arith, ◌==◌, true, false, Option, none,
  some, if◌then◌else◌, Bool-cases, ==→eq,
}
use mockos.Sched.{nr_tasks, Kernel, TaskPtr, runnable}
use mockos.Sched.Fair.{IsTable}
use mockos.Fork.{Processes, find_empty_process}
use mockos.Fork.Task.{Task}
use mockos.Fork.Copy.{Machine, Forked, retry, copy_process}
use mockos.Fork.Change.{Regs}
use mockos.Fork.Child.{parent, child_page}
use mockos.Fork.Born.{IsBorn}

-- What the scheduler sees of the tasks, and what `find_empty_process` sees.
abbrev pub kernel_view : Machine → Kernel
kernel_view s = record { task = s.task; state = λ q. (s.tasks q).state; current = s.current }

abbrev pub processes : Machine → Processes
processes s = record {
  task = s.task;
  pid = λ q. (s.tasks q).pid;
  pgrp = λ q. (s.tasks q).pgrp;
  last_pid = s.last_pid;
}

-- A negative result of `find_empty_process` is returned; any other is the slot.
abbrev pub fork_at : Regs → Machine → Option ℕ → Forked
fork_at r s none = retry s
fork_at r s (some nr) = copy_process nr r s

-- The option is the fuel of `find_empty_process`.
unfoldable pub sys_fork : Regs → Machine → Option Forked
sys_fork r s = elim (find_empty_process (processes s)) [
  | none ↦ none
  | some (slot, q) ↦ some (fork_at r (record s { last_pid = q.last_pid }) slot)
]

-- What the children of a fork see of another task.
pub record Alike (t u : Task) : Type 0 where
  pub state : t.state ≡ u.state
  pub pid : t.pid ≡ u.pid
  pub pgrp : t.pgrp ≡ u.pgrp

module _ {nr : ℕ} {r : Regs} {s t : Machine} (b : IsBorn nr r s t) where
  pub born-Alike : (q : TaskPtr) → q ≢ 0 → q ≢ child_page s → Alike (t.tasks q) (s.tasks q)
  born-Alike q exists ne = elim (Bool-cases (q == s.current)) [
    | inl e ↦
        subst (λ x. Alike (t.tasks x) (s.tasks x)) (sym (==→eq q s.current e))
          (record {
            state = ap (λ x. x.state) b.old_task;
            pid = ap (λ x. x.pid) b.old_task;
            pgrp = ap (λ x. x.pgrp) b.old_task;
          })
    | inr e ↦ elim (Bool-cases (q == (parent s).p_cptr)) [
      | inl d ↦
          let h = b.sibling (λ z. exists (==→eq q (parent s).p_cptr d ∙ z)) in
          subst (λ x. Alike (t.tasks x) (s.tasks x)) (sym (==→eq q (parent s).p_cptr d))
            (record {
              state = ap (λ x. x.state) h;
              pid = ap (λ x. x.pid) h;
              pgrp = ap (λ x. x.pgrp) h;
            })
      | inr d ↦
          let h = b.others q ne (λ z. ground arith) (λ z. ground arith) in
          record { state = ap (λ x. x.state) h; pid = ap (λ x. x.pid) h; pgrp = ap (λ x. x.pgrp) h }
    ]
  ]

  pub new_slot : t.task nr ≡ child_page s
  new_slot = ap (λ f. f nr) b.slots ∙ ground arith

  pub old_slot : (j : ℕ) → j ≢ nr → t.task j ≡ s.task j
  old_slot j ne = ap (λ f. f j) b.slots ∙ ground arith

-- No slot holds the page that is next to be given out.
abbrev pub IsFresh : Machine → Type 0
IsFresh s = (j : ℕ) → j < nr_tasks → s.task j ≢ child_page s

-- Between two calls: no task stands in two slots, the current one stands in the slot `c`, no two tasks
-- bear the same number, and the last number given is no negative `long`.
pub record IsSystem (s : Machine) (c : ℕ) : Type 0 where
  pub table : IsTable (kernel_view s) c
  pub numbers :
      (i j : ℕ)
      → i < nr_tasks
      → j < nr_tasks
      → s.task i ≢ 0
      → s.task j ≢ 0
      → (s.tasks (s.task i)).pid ≡ (s.tasks (s.task j)).pid
      → i ≡ j
  pub last : s.last_pid < 2 ^ 31

module _ {nr : ℕ} {r : Regs} {s t : Machine} (b : IsBorn nr r s t) (lt : nr < nr_tasks)
    (empty : s.task nr ≡ 0) (fresh : IsFresh s) (exists : child_page s ≢ 0) where
  slot_lem : (j : ℕ) → t.task j ≡ (if nr == j then child_page s else s.task j)
  slot_lem j = ap (λ f. f j) b.slots

  pub born-IsTable : (c : ℕ) → IsTable (kernel_view s) c → IsTable (kernel_view t) c
  born-IsTable c tab = record {
    distinct = λ i j li lj ne e.
        ground (arith, slot_lem i, slot_lem j, fresh i li, fresh j lj, tab.distinct i j li lj);
    in_range = tab.in_range;
    here = slot_lem c ∙ (rw other (tab.here ∙ sym b.same_current));
    exists = λ z. tab.exists (sym b.same_current ∙ z);
  }
    where
      other : (nr == c) ≡ false
      other = ground (arith, tab.exists, tab.here, empty)

  pub number_new : (t.tasks (t.task nr)).pid ≡ s.last_pid
  number_new = ap (λ q. (t.tasks q).pid) (new_slot b) ∙ ap (λ x. x.pid) b.new_task

  pub number_old :
      (j : ℕ)
      → j < nr_tasks
      → j ≢ nr
      → t.task j ≢ 0
      → (s.task j ≢ 0) × ((t.tasks (t.task j)).pid ≡ (s.tasks (s.task j)).pid)
  number_old j lj ne held =
      let e = old_slot b j ne in
      let a = born-Alike b (s.task j) (λ z. held (e ∙ z)) (fresh j lj) in
      ((λ z. held (e ∙ z)), ap (λ q. (t.tasks q).pid) e ∙ a.pid)

  -- The numbers stay apart if `last_pid` is no task's number.
  pub born-numbers :
      ((j : ℕ) → j < nr_tasks → s.task j ≢ 0 → (s.tasks (s.task j)).pid ≢ s.last_pid)
      → ((i j : ℕ)
          → i < nr_tasks
          → j < nr_tasks
          → s.task i ≢ 0
          → s.task j ≢ 0
          → (s.tasks (s.task i)).pid ≡ (s.tasks (s.task j)).pid
          → i ≡ j)
      → (i j : ℕ) → i < nr_tasks
      → j < nr_tasks
      → t.task i ≢ 0
      → t.task j ≢ 0
      → (t.tasks (t.task i)).pid ≡ (t.tasks (t.task j)).pid
      → i ≡ j
  born-numbers unborne apart i j li lj fi fj e = elim (Bool-cases (i == nr)) [
    | inl a ↦ elim (Bool-cases (j == nr)) [
      | inl d ↦ ground arith
      | inr d ↦
          let (f, o) = number_old j lj (λ z. ground arith) fj in
          absurd (
            unborne j lj f (
              sym o
              ∙ (sym e
                  ∙ subst (λ x. (t.tasks (t.task x)).pid ≡ s.last_pid) (sym (==→eq i nr a))
                      number_new)))
    ]
    | inr a ↦
        let (g, p) = number_old i li (λ z. ground arith) fi in
        elim (Bool-cases (j == nr)) [
          | inl d ↦ absurd (
              unborne i li g (
                sym p
                ∙ (e
                    ∙ subst (λ x. (t.tasks (t.task x)).pid ≡ s.last_pid) (sym (==→eq j nr d))
                        number_new)))
          | inr d ↦
              let (f, o) = number_old j lj (λ z. ground arith) fj in
              apart i j li lj g f (sym p ∙ (e ∙ o))
        ]
  ]

  pub born-runnable : runnable (kernel_view t) nr ≡ true
  born-runnable =
      let e = new_slot b in
      let f = ap (λ x. x.state) b.new_task in rw e (rw f (ground (arith, exists)))
