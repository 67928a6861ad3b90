-- ===== src/Fork/Table.antt =====
-- The system call fork against the table of processes that a user sees.
use mathlib.Core.Option.{some-injective}
use mockos.Prelude.{
  ℕ, ◌^◌, ◌<◌, ◌≡◌, ◌≢◌, refl, sym, ap, ◌∙◌, subst, inl, inr, arith, ◌==◌, false, Option, none,
  some, if◌then◌else◌, Bool-cases, ==→eq,
}
use mockos.Mm.FreePage.{get_free_page-ne-zero}
use mockos.Sched.{nr_tasks, TaskState, running}
use mockos.Fork.{clashes}
use mockos.Fork.Task.{Task}
use mockos.Fork.Copy.{Machine, Forked, retry, forked, panicked}
use mockos.Fork.Change.{Regs}
use mockos.Fork.Child.{parent}
use mockos.Fork.Born.{IsBorn}
use mockos.Fork.System.{processes, sys_fork, Alike, born-Alike, new_slot, old_slot, IsFresh}
use mockos.Fork.Spawn.{CanFork, CanFork-IsFresh, Ends, born, table_full, sys_fork-Ends}

-- The state in which a call leaves the system, and the number that it returns.
abbrev pub after : Forked → Machine
after (retry s) = s
after (forked p s) = s
after (panicked e s) = s

abbrev pub returned : Forked → Option ℕ
returned (forked p s) = some p
returned _ = none

-- A process as others see it.
pub record Entry : Type 0 where
  pub number : ℕ
  pub group : ℕ
  pub activity : TaskState

abbrev pub entry : Task → Entry
entry t = record { number = t.pid; group = t.pgrp; activity = t.state }

-- The table: a slot holds a process or nothing.
abbrev pub entries : Machine → ℕ → Option Entry
entries s j = if s.task j == 0 then none else some (entry (s.tasks (s.task j)))

-- What fork is to do to a table `a` for the process `me`: a new process with a new number and the
-- group of `me`, ready to run, in the first free slot from 1 on, or nothing if there is none.
pub data Spawns (a : ℕ → Option Entry) (me : Entry) (b : ℕ → Option Entry) : Option ℕ → Type 0 where
  spawned :
      (nr p : ℕ)
      → 0 < nr
      → nr < nr_tasks
      → a nr ≡ none
      → ((k : ℕ) → 0 < k → k < nr → a k ≢ none)
      → 0 < p
      → p < 2 ^ 31
      → ((j : ℕ) (e : Entry) → j < nr_tasks → a j ≡ some e → (e.number ≢ p) × (e.group ≢ p))
      → ((j : ℕ)
          → j < nr_tasks
          → b j ≡ (
              if j == nr
              then some (record { number = p; group = me.group; activity = running })
              else a j))
      → Spawns a me b (some p)
  refused :
      ((k : ℕ) → 0 < k → k < nr_tasks → a k ≢ none)
      → ((j : ℕ) → j < nr_tasks → b j ≡ a j)
      → Spawns a me b none

entries-none : (s : Machine) (j : ℕ) → s.task j ≡ 0 → entries s j ≡ none
entries-none s j e = rw e refl

entries-some :
    (s : Machine) (j : ℕ) → s.task j ≢ 0 → entries s j ≡ some (entry (s.tasks (s.task j)))
entries-some s j ne = let e : (s.task j == 0) ≡ false = ground arith in rw e refl

some-ne-none : {o : Option Entry} {x : Entry} → o ≡ some x → o ≢ none
some-ne-none h e = cc

-- No process in the table bears the number `p`, neither as its own nor as its group's.
entries-clashes :
    (s : Machine) (p j : ℕ) (e : Entry)
    → clashes (processes s) j p ≡ false
    → entries s j ≡ some e
    → (e.number ≢ p) × (e.group ≢ p)
entries-clashes s p j e h held = elim (Bool-cases (s.task j == 0)) [
  | inl z ↦ absurd (some-ne-none held (entries-none s j (==→eq _ 0 z)))
  | inr z ↦
      let same : entry (s.tasks (s.task j)) ≡ e =
        some-injective _ _ (sym (entries-some s j (λ q. ground arith)) ∙ held) in
      (
        λ q. ground (arith, ap (λ x. x.number) same ∙ q),
        λ q. ground (arith, ap (λ x. x.group) same ∙ q),
      )
]

Alike-entry : {t u : Task} → Alike t u → entry t ≡ entry u
Alike-entry a = cc

-- The entries after a birth.
born-entries :
    (nr p : ℕ) (r : Regs) (s t : Machine)
    → IsBorn nr r (record s { last_pid = p }) t
    → IsFresh (record s { last_pid = p })
    → (j : ℕ) → j < nr_tasks
    → entries t j ≡ (
        if j == nr
        then some (record { number = p; group = (parent s).pgrp; activity = running })
        else entries s j)
born-entries nr p r s t b fresh j lt = elim (Bool-cases (j == nr)) [
  | inl e ↦ rw e (
      subst
        (λ k.
          entries t k ≡ some (record { number = p; group = (parent s).pgrp; activity = running }))
        (sym (==→eq j nr e))
        (entries-some t nr (λ z. get_free_page-ne-zero s.mem (sym (new_slot b) ∙ z))
          ∙ ap (λ x. some (entry x)) (ap t.tasks (new_slot b) ∙ b.new_task)))
  | inr e ↦
      let o = old_slot b j (λ z. ground arith) in
      rw e (elim (Bool-cases (s.task j == 0)) [
        | inl z ↦ entries-none t j (o ∙ ==→eq _ 0 z) ∙ sym (entries-none s j (==→eq _ 0 z))
        | inr z ↦
            let held : s.task j ≢ 0 = λ q. ground arith in
            entries-some t j (λ q. held (sym o ∙ q))
            ∙ (ap (λ x. some (entry (t.tasks x))) o
                ∙ (ap some (Alike-entry (born-Alike b (s.task j) held (fresh j lt)))
                    ∙ sym (entries-some s j held)))
      ])
]

pub Ends-Spawns :
    (r : Regs) (s : Machine) (f : Forked)
    → CanFork s
    → Ends r s f
    → Spawns (entries s) (entry (parent s)) (entries (after f)) (returned f)
Ends-Spawns r s _ c (born nr p t lo hi empty before pos small unborne b) =
    spawned nr p lo hi (entries-none s nr empty)
      (λ k a z. some-ne-none (entries-some s k (before k a z))) pos small
      (λ j e lt. entries-clashes s p j e (unborne j lt))
      (born-entries nr p r s t b (CanFork-IsFresh p s c))
Ends-Spawns r s _ c (table_full p small unborne all) =
    refused (λ k a z. some-ne-none (entries-some s k (all k a z))) (λ j lt. refl)

-- From a `last_pid` below 2 ^ 31, with a free page, every task in a page in use, segments that agree
-- and no panic in `copy_page_tables`: `sys_fork` ends, and what it does to the table is what fork is
-- to do: a new process in the first free slot, with a number from 1 to 2 ^ 31 - 1 that is no
-- process's number or group, the parent's group, ready to run, and no other entry changed; or
-- -EAGAIN with no entry changed, if all slots from 1 on are taken.
pub sys_fork-Spawns :
    (r : Regs) (s : Machine)
    → CanFork s
    → s.last_pid < 2 ^ 31
    → (f : Forked) × (sys_fork r s ≡ some f)
      × Spawns (entries s) (entry (parent s)) (entries (after f)) (returned f)
sys_fork-Spawns r s c small =
    let (f, e, ends) = sys_fork-Ends r s c small in (f, e, Ends-Spawns r s f c ends)
