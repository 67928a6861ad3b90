-- ===== src/Tests/Sched.antt =====
-- kernel/sched.c with three tasks, in the slots 0, 1 and 5; the task in slot 1 is current.
use mockos.Sched.Mutex.{
  Mutex, outside, testing, sleeping, klock_test, set_place, Reaches, here, later, calls, tests,
  IsExclusive, klock-IsExclusive,
}
use mockos.Prelude.{
  ℕ, ◌+◌, ◌≤◌, ◌≡◌, refl, arith, ◌==◌, [], ◌∷◌, All, Option, none, some, if◌then◌else◌,
}
use mockos.Sched.{
  find_current, next_task, switch_to, nr_tasks, TaskPtr, running, uninterruptible, Kernel, Decision,
  perform, schedule, sys_pause,
}
use mockos.Sched.Choice.{IsCurrent, Stops, schedule-Stops}
use mockos.Sched.Fair.{IsTable, Spares, ticks, ticks_reach}
use mockos.Sched.Wait.{Waiting, sleep_on, wake_up}
use mockos.Sched.Wait.Chain.{Chain, save, sleep_on-Chain, drain, drain-wake_up}

abbrev three_tasks : Kernel
three_tasks = record {
  task = λ i. if i == 0 then 10 else if i == 1 then 20 else if i == 5 then 30 else 0;
  state = λ p. running;
  current = 20;
}

abbrev tasks_of : Option Kernel → TaskPtr
tasks_of none = 0
tasks_of (some s) = s.current

next_is_5 : tasks_of (schedule three_tasks) ≡ 30
unfolding schedule find_current next_task switch_to
next_is_5 = refl

pause_switches : tasks_of (sys_pause three_tasks) ≡ 30
unfolding sys_pause schedule find_current next_task switch_to
pause_switches = refl

first-IsCurrent : IsCurrent three_tasks 1
first-IsCurrent = record { holds = refl; first = λ j lt. ground arith }

schedule-Stops_example :
    (d : Decision) × (schedule three_tasks ≡ some (perform d three_tasks))
    × Stops three_tasks (1 + 1) (1 + nr_tasks) d
schedule-Stops_example = schedule-Stops 1 three_tasks first-IsCurrent (omega arith)

three_tasks-IsTable : IsTable three_tasks 1
three_tasks-IsTable = record {
  distinct = λ i j li lj ne e. ground arith;
  in_range = omega arith;
  here = refl;
  exists = omega arith;
}

abbrev idle_env : ℕ → Kernel → Kernel
idle_env n s = s

idle_env-Spares : Spares 0 idle_env
idle_env-Spares = record {
  same_task = λ n s. refl;
  same_current = λ n s. refl;
  stays = λ n s run. run;
}

ticks_reach_example :
    (m : ℕ) × (m ≤ 63)
    × (t : Kernel) × (ticks idle_env m three_tasks ≡ some t)
    × (t.current ≡ three_tasks.task 0)
ticks_reach_example =
    ticks_reach 63 1 0 idle_env three_tasks three_tasks-IsTable (omega arith) refl idle_env-Spares
      (omega arith)

abbrev queue : Waiting
queue = record {
  head = 30;
  kernel = record three_tasks { state = λ p. if p == 20 then running else uninterruptible };
}

-- the task 30 sleeps in front of the task 10
abbrev saved_ptrs : TaskPtr → TaskPtr
saved_ptrs p = if p == 30 then 10 else 0

sleep_on-Chain_example :
    (tmp : TaskPtr) × (v : Waiting) × (sleep_on 10 queue ≡ some (tmp, v))
    × Chain (save 20 tmp saved_ptrs) v.head (20 ∷ 30 ∷ 10 ∷ [])
    × (v.kernel.state 20 ≡ uninterruptible)
sleep_on-Chain_example =
    sleep_on-Chain 10 queue saved_ptrs (30 ∷ 10 ∷ []) (omega arith) (omega arith)
      (omega arith, (omega arith, tt)) (refl, omega arith, (refl, omega arith, refl))

drain-wake_up_example :
    (v : Waiting) × (drain saved_ptrs (30 ∷ 10 ∷ []) (wake_up queue) ≡ some v)
    × (v.head ≡ 0)
    × All (λ x. v.kernel.state x ≡ running) (30 ∷ 10 ∷ [])
drain-wake_up_example =
    drain-wake_up saved_ptrs (30 ∷ 10 ∷ []) queue (refl, omega arith, (refl, omega arith, refl))

abbrev unlocked : Mutex
unlocked = record { lock = 0; place = λ t. outside }

abbrev task_1_inside : Mutex
task_1_inside = klock_test 1 (set_place 1 testing unlocked)

-- task 1 calls `sys_klock`, and then task 2, which has to sleep
abbrev two_calls : Mutex
two_calls = klock_test 2 (set_place 2 testing task_1_inside)

two_calls_reached : Reaches unlocked two_calls
unfolding klock_test
two_calls_reached =
    later (later (later (later here (calls 1 refl)) (tests 1 refl)) (calls 2 refl)) (tests 2 refl)

task_2_sleeps : two_calls.place 2 ≡ sleeping
unfolding klock_test
task_2_sleeps = refl

klock-IsExclusive_example : IsExclusive two_calls
klock-IsExclusive_example = klock-IsExclusive unlocked two_calls refl (λ t. refl) two_calls_reached
