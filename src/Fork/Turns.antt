-- ===== src/Fork/Turns.antt =====
-- The system call fork keeps the table in order, and the child gets its turn.
use mockos.Prelude.{ℕ, ◌^◌, ◌<◌, ◌≤◌, ◌≡◌, ◌≢◌, refl, sym, ap, ◌∙◌, subst, arith, false, some}
use mockos.Mm.FreePage.{get_free_page-ne-zero}
use mockos.Sched.{Kernel, nr_tasks}
use mockos.Sched.Fair.{Spares, ticks, ticks_reach}
use mockos.Fork.{clashes}
use mockos.Fork.Copy.{Machine, Forked, forked}
use mockos.Fork.Change.{Regs}
use mockos.Fork.Child.{child_page}
use mockos.Fork.System.{
  kernel_view, processes, sys_fork, new_slot, IsSystem, born-IsTable, born-numbers, born-runnable,
}
use mockos.Fork.Spawn.{CanFork, CanFork-IsFresh, Ends, born, table_full, sys_fork-Ends}
use mockos.Fork.Table.{after}

unborne-pid :
    (s : Machine) (j p : ℕ)
    → clashes (processes s) j p ≡ false
    → s.task j ≢ 0
    → (s.tasks (s.task j)).pid ≢ p
unborne-pid s j p h held e = ground arith

Ends-IsSystem :
    (r : Regs) (s : Machine) (c : ℕ) (f : Forked)
    → CanFork s
    → IsSystem s c
    → Ends r s f
    → IsSystem (after f) c
Ends-IsSystem r s c _ can sys (born nr p t lo hi empty before pos small unborne b) =
    let exists = get_free_page-ne-zero s.mem in
    let fresh = CanFork-IsFresh p s can in
    record {
      table = born-IsTable b hi empty fresh exists c sys.table;
      numbers =
          born-numbers b hi empty fresh exists (λ j lt. unborne-pid s j p (unborne j lt))
            sys.numbers;
      last = subst (λ x. x < 2 ^ 31) (sym b.same_pid) small;
    }
Ends-IsSystem r s c _ can sys (table_full p small unborne all) = record {
  table = sys.table;
  numbers = sys.numbers;
  last = small;
}

-- `sys_fork` keeps what holds between calls, under the conditions of a fork: no task stands in two
-- slots, the current task stays in its slot, no two tasks bear the same number, and `last_pid`
-- is below 2 ^ 31.
pub sys_fork-IsSystem :
    (r : Regs) (s : Machine) (c : ℕ)
    → CanFork s
    → IsSystem s c
    → (f : Forked) × (sys_fork r s ≡ some f) × IsSystem (after f) c
sys_fork-IsSystem r s c can sys =
    let (f, e, ends) = sys_fork-Ends r s can sys.last in (f, e, Ends-IsSystem r s c f can sys ends)

-- What a birth means for the scheduler: the child's slot, and a turn within 63 ticks.
pub record GetsTurn (s t : Machine) : Type 0 where
  pub slot : ℕ
  pub in_slot : t.task slot ≡ child_page s
  pub turn :
      (env : ℕ → Kernel → Kernel)
      → Spares slot env
      → (m : ℕ) × (m ≤ 63)
        × (u : Kernel) × (ticks env m (kernel_view t) ≡ some u)
        × (u.current ≡ child_page s)

Ends-GetsTurn :
    (r : Regs) (s : Machine) (c i : ℕ) (f : Forked)
    → CanFork s
    → IsSystem s c
    → 0 < i
    → i < nr_tasks
    → s.task i ≡ 0
    → Ends r s f
    → (p : ℕ) × (t : Machine) × (f ≡ forked p t) × GetsTurn s t
Ends-GetsTurn r s c i _ can sys a z none_there
      (born nr p t lo hi empty before pos small unborne b) =
    let exists = get_free_page-ne-zero s.mem in
    let fresh = CanFork-IsFresh p s can in
    let table = born-IsTable b hi empty fresh exists c sys.table in
    (
      p,
      t,
      refl,
      record {
        slot = nr;
        in_slot = new_slot b;
        turn = λ env spares.
            let (m, few, u, ran, now) =
              ticks_reach 63 c nr env (kernel_view t) table hi
                (born-runnable b hi empty fresh exists) spares (omega (arith, table.in_range)) in
            (m, few, u, ran, now ∙ new_slot b);
      },
    )
Ends-GetsTurn r s c i _ can sys a z none_there (table_full p small unborne all) =
    absurd (all i a z none_there)

-- If moreover a slot from 1 on is free, `sys_fork` returns a child, and whatever runs between the
-- ticks, as long as it leaves the table and the current task alone and the child runnable: the child
-- is the current task after at most 63 ticks.
pub sys_fork-GetsTurn :
    (r : Regs) (s : Machine) (c i : ℕ)
    → CanFork s
    → IsSystem s c
    → 0 < i
    → i < nr_tasks
    → s.task i ≡ 0
    → (p : ℕ) × (t : Machine) × (sys_fork r s ≡ some (forked p t)) × GetsTurn s t
sys_fork-GetsTurn r s c i can sys lo hi empty =
    let (f, e, ends) = sys_fork-Ends r s can sys.last in
    let (p, t, q, turn) = Ends-GetsTurn r s c i f can sys lo hi empty ends in
    (p, t, e ∙ ap some q, turn)
