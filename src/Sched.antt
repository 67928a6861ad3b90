-- ===== src/Sched.antt =====
-- The scheduler of kernel/sched.c and include/linux/sched.h: the round-robin choice, the tick, and
-- the wait queues. The proofs are in the children.
pub mod Choice
pub mod Fair
pub mod Wait
pub mod Mutex
use mockos.Prelude.{
  ℕ, zero, suc, ◌+◌, ◌%◌, ◌==◌, ◌&&◌, not, Bool, true, false, Option, none, some, if◌then◌else◌,
}

abbrev pub nr_tasks : ℕ
nr_tasks = 64

-- TASK_RUNNING to TASK_STOPPED
pub data TaskState : Type 0 where
  running interruptible uninterruptible zombie stopped : TaskState

abbrev pub is_running : TaskState → Bool
is_running running = true
is_running _ = false

-- A pointer to a `struct task_struct`; 0 is NULL.
abbrev pub TaskPtr : Type 0
TaskPtr = ℕ

-- `task` is the array of NR_TASKS pointers, `state` the field of each task.
pub record Kernel : Type 0 where
  pub task : ℕ → TaskPtr
  pub state : TaskPtr → TaskState
  pub current : TaskPtr

-- How a call of `schedule` goes on: it returns, or it switches to a slot.
pub data Decision : Type 0 where
  stay : Decision
  switch : ℕ → Decision

-- for (i = 0; task[i] != current; i++), on fuel
unfoldable pub find_current : ℕ → ℕ → Kernel → Option ℕ
find_current zero i s = none
find_current (suc fuel) i s =
    let rest = find_current fuel (i + 1) s in if s.task i == s.current then some i else rest

-- task[k] != NULL && task[k]->state == TASK_RUNNING
abbrev pub runnable : Kernel → ℕ → Bool
runnable s k = not (s.task k == 0) && is_running (s.state (s.task k))

-- for (;; i++), on fuel
unfoldable pub next_task : ℕ → ℕ → Kernel → Option Decision
next_task zero i s = none
next_task (suc fuel) i s =
    let k = i % nr_tasks in
    let rest = next_task fuel (i + 1) s in
    if s.task k == s.current then some stay else if runnable s k then some (switch k) else rest

-- `switch_to`: the exchange with `current`, and nothing if `task[n]` is current.
unfoldable pub switch_to : ℕ → Kernel → Kernel
switch_to n s = record s { current = s.task n }

abbrev pub perform : Decision → Kernel → Kernel
perform stay s = s
perform (switch k) s = switch_to k s

-- Both loops get NR_TASKS rounds; `none` is a loop that goes on past them.
unfoldable pub schedule : Kernel → Option Kernel
schedule s = elim (find_current nr_tasks 0 s) [
  | none ↦ none
  | some i ↦ elim (next_task nr_tasks (i + 1) s) [ none ↦ none | some d ↦ some (perform d s) ]
]

-- The timer interrupt's part; the privilege level is not read.
unfoldable pub do_timer : ℕ → Kernel → Option Kernel
do_timer cpl s = schedule s

-- The current task waits for a signal.
unfoldable pub sys_pause : Kernel → Option Kernel
sys_pause s =
    schedule (record s { state = λ p. if p == s.current then interruptible else s.state p })
