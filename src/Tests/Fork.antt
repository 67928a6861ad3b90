-- ===== src/Tests/Fork.antt =====
-- kernel/fork.c with tasks in the slots 0 and 1, which bear the numbers 0 and 1.
use mockos.Prelude.{
  ◌-◌, ℕ, ◌+◌, ◌^◌, ◌<◌, ◌≡◌, refl, arith, ◌==◌, false, ltb, if◌then◌else◌, Option, some,
}
use mockos.Sched.{nr_tasks}
use mockos.Fork.{Processes, next_pid, clashes, is_taken, find_pid, find_empty_process}
use mockos.Fork.Pid.{Slot, find_empty_process_total}

abbrev two_tasks : Processes
two_tasks = record {
  task = λ i. if ltb i 2 then i + 1 else 0;
  pid = λ p. if p == 1 then 0 else 1;
  pgrp = λ p. if p == 1 then 0 else 2;
  last_pid = 0;
}

skips_taken : find_pid 4 two_tasks 0 ≡ some 3
unfolding find_pid is_taken next_pid
skips_taken = refl

wraps : next_pid (2 ^ 31 - 1) ≡ 1
unfolding next_pid
wraps = refl

find_empty_process_total_example :
    (r : Option ℕ) × (p : ℕ) × (find_empty_process two_tasks
      ≡ some (r, record two_tasks { last_pid = p }))
    × Slot two_tasks 63 1 r
    × (0 < p)
    × (p < 2 ^ 31)
    × ((j : ℕ) → j < nr_tasks → clashes two_tasks j p ≡ false)
find_empty_process_total_example = find_empty_process_total two_tasks (omega arith)
