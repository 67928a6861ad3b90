-- ===== src/Sched/Wait.antt =====
-- The wait queues of kernel/sched.c: `__sleep_on`, `sleep_on`, `interruptible_sleep_on`, `wake_up`.
-- A queue is the pointer `*p` to its first task; each sleeper keeps the next in its local `tmp`.
-- `schedule` stands in the middle of `__sleep_on`, so the function is cut there in two.
pub mod Chain
use mockos.Prelude.{ℕ, ◌==◌, ◌&&◌, not, Option, none, some, if◌then◌else◌}
use mockos.Sched.{TaskState, running, interruptible, uninterruptible, TaskPtr, Kernel}

abbrev pub set_state : TaskPtr → TaskState → Kernel → Kernel
set_state p v s = record s { state = λ q. if p == q then v else s.state q }

-- A queue's head beside the kernel's state.
pub record Waiting : Type 0 where
  pub head : TaskPtr
  pub kernel : Kernel

-- Up to `schedule()`: what is left in `tmp`, and the state in which another task is chosen. `none`
-- is the panic of task 0. `p` is the address of a queue, never NULL.
unfoldable pub sleep_enter :
    (init_task : TaskPtr) → TaskState → Waiting → Option (TaskPtr × Waiting)
sleep_enter init_task v w =
    if w.kernel.current == init_task
    then none
    else some
        (w.head, record { head = w.kernel.current; kernel = set_state w.kernel.current v w.kernel })

-- From the return of `schedule()` on: to `repeat`, or out of the function.
pub data Resumed : Type 0 where
  again : Waiting → Resumed
  awake : Waiting → Resumed

abbrev pub wake_next : TaskPtr → Kernel → Kernel
wake_next tmp s = if tmp == 0 then s else set_state tmp running s

-- The warning on an empty queue is only printed.
unfoldable pub sleep_resume : (tmp : TaskPtr) → Waiting → Resumed
sleep_resume tmp w =
    let s = w.kernel in
    if not (w.head == 0) && not (w.head == s.current)
    then again
        (record w { kernel = set_state s.current uninterruptible (set_state w.head running s) })
    else awake (record { head = tmp; kernel = wake_next tmp s })

unfoldable pub sleep_on : (init_task : TaskPtr) → Waiting → Option (TaskPtr × Waiting)
sleep_on init_task w = sleep_enter init_task uninterruptible w

unfoldable pub interruptible_sleep_on : (init_task : TaskPtr) → Waiting → Option (TaskPtr × Waiting)
interruptible_sleep_on init_task w = sleep_enter init_task interruptible w

-- The two messages about a stopped and a zombie task are only printed.
unfoldable pub wake_up : Waiting → Waiting
wake_up w = if w.head == 0 then w else record w { kernel = set_state w.head running w.kernel }
