-- ===== src/Fork.antt =====
-- kernel/fork.c: the choice of a process number and of a slot for a new process.
pub mod Pid
pub mod Task
pub mod Change
pub mod Copy
pub mod Limits
pub mod Links
pub mod Child
pub mod Counts
pub mod Return
pub mod Born
pub mod System
pub mod Spawn
pub mod Table
pub mod Turns
use mockos.Prelude.{
  ℕ, zero, suc, ◌+◌, ◌^◌, ◌==◌, ◌&&◌, ◌||◌, not, Bool, false, true, Option, none, some,
  if◌then◌else◌,
}
use mockos.Sched.{TaskPtr, nr_tasks}

-- What `find_empty_process` reads: the table, two fields of each task, and the last number given.
pub record Processes : Type 0 where
  pub task : ℕ → TaskPtr
  pub pid : TaskPtr → ℕ
  pub pgrp : TaskPtr → ℕ
  pub last_pid : ℕ

-- `if ((++last_pid) < 0) last_pid = 1`, in a `long` that holds no negative number before.
unfoldable pub next_pid : ℕ → ℕ
next_pid last = if last + 1 == 2 ^ 31 then 1 else last + 1

-- task[i] && (task[i]->pid == last_pid || task[i]->pgrp == last_pid)
abbrev pub clashes : Processes → ℕ → ℕ → Bool
clashes s i p = not (s.task i == 0) && (s.pid (s.task i) == p || s.pgrp (s.task i) == p)

-- whether one of the `n` slots from `i` on makes the first loop go back to `repeat`
unfoldable pub is_taken : Processes → ℕ → ℕ → ℕ → Bool
is_taken s zero i p = false
is_taken s (suc n) i p = clashes s i p || is_taken s n (i + 1) p

-- From `repeat` to the end of the first loop, on fuel.
unfoldable pub find_pid : ℕ → Processes → ℕ → Option ℕ
find_pid zero s last = none
find_pid (suc fuel) s last =
    let p = next_pid last in
    let rest = find_pid fuel s p in if is_taken s nr_tasks 0 p then rest else some p

-- The second loop, over the `n` slots from `i` on.
unfoldable pub find_slot : Processes → ℕ → ℕ → Option ℕ
find_slot s zero i = none
find_slot s (suc n) i = let rest = find_slot s n (i + 1) in if s.task i == 0 then some i else rest

-- One number more than the tasks can hold is enough rounds.
abbrev pub pid_rounds : ℕ
pid_rounds = 129

-- The outer option is the fuel; the inner one is `none` for -EAGAIN. `last_pid` changes in any case.
unfoldable pub find_empty_process : Processes → Option (Option ℕ × Processes)
find_empty_process s = elim (find_pid pid_rounds s s.last_pid) [
  | none ↦ none
  | some p ↦ some (find_slot s 63 1, record s { last_pid = p })
]
