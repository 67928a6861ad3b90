-- ===== src/Sched/Wait/Chain.antt =====
-- A wait queue is the list of its sleepers, the last to come first.
use mockos.Prelude.{
  ◌≡◌, ◌≢◌, refl, sym, ◌∙◌, subst, arith, ◌==◌, List, [], ◌∷◌, Option, none, some, if◌then◌else◌,
  All,
}
use mockos.Sched.{is_running, running, uninterruptible, TaskPtr}
use mockos.Sched.Wait.{
  set_state, wake_next, Waiting, sleep_enter, again, awake, sleep_resume, sleep_on, wake_up,
}

-- From `h` the saved pointers lead through the tasks `xs`.
abbrev pub Chain : (saved : TaskPtr → TaskPtr) → TaskPtr → List TaskPtr → Type 0
Chain saved h [] = h ≡ 0
Chain saved h (x ∷ xs) = (h ≡ x) × (x ≢ 0) × Chain saved (saved x) xs

abbrev pub NotIn : TaskPtr → List TaskPtr → Type 0
NotIn c = All (λ x. x ≢ c)

-- The local `tmp` of each task, after `c` has set its own.
abbrev pub save : TaskPtr → TaskPtr → (TaskPtr → TaskPtr) → TaskPtr → TaskPtr
save c tmp saved q = if c == q then tmp else saved q

Chain-save :
    (c tmp h : TaskPtr) (saved : TaskPtr → TaskPtr) (xs : List TaskPtr)
    → NotIn c xs
    → Chain saved h xs
    → Chain (save c tmp saved) h xs
Chain-save c tmp h saved [] out ch = ch
Chain-save c tmp h saved (x ∷ xs) out ch =
    let e : save c tmp saved x ≡ saved x = ground (arith, out.0) in
    (ch.0, ch.1, rw e (Chain-save c tmp (saved x) saved xs out.1 ch.2))

-- A task other than the first one, no NULL and not in the queue, that calls `sleep_on` becomes the
-- first of the queue, in front of the others, and is uninterruptible.
pub sleep_on-Chain :
    (init_task : TaskPtr) (w : Waiting) (saved : TaskPtr → TaskPtr) (xs : List TaskPtr)
    → w.kernel.current ≢ init_task
    → w.kernel.current ≢ 0
    → NotIn w.kernel.current xs
    → Chain saved w.head xs
    → (tmp : TaskPtr) × (v : Waiting) × (sleep_on init_task w ≡ some (tmp, v))
      × Chain (save w.kernel.current tmp saved) v.head (w.kernel.current ∷ xs)
      × (v.kernel.state w.kernel.current ≡ uninterruptible)
unfolding sleep_on sleep_enter
sleep_on-Chain init_task w saved xs ne nz out ch =
    let c = w.kernel.current in
    let own : save c w.head saved c ≡ w.head = ground arith in
    (
      w.head,
      record { head = c; kernel = set_state c uninterruptible w.kernel },
      ground arith,
      (refl, nz, rw own (Chain-save c w.head w.head saved xs out ch)),
      ground arith,
    )

-- the kernel with `c` on the processor
abbrev pub running_task : TaskPtr → Waiting → Waiting
running_task c w = record w { kernel = record w.kernel { current = c } }

-- The first sleeper of a queue, when it goes on, leaves the queue to the others and wakes the
-- next; tasks that were running stay so.
pub sleep_resume-head :
    (x : TaskPtr) (w : Waiting) (saved : TaskPtr → TaskPtr) (xs : List TaskPtr)
    → Chain saved w.head (x ∷ xs)
    → (v : Waiting) × (sleep_resume (saved x) (running_task x w) ≡ awake v)
      × Chain saved v.head xs
      × (v.head ≢ 0 → v.kernel.state v.head ≡ running)
      × ((q : TaskPtr) → w.kernel.state q ≡ running → v.kernel.state q ≡ running)
unfolding sleep_resume
sleep_resume-head x w saved xs ch = (
  record { head = saved x; kernel = wake_next (saved x) (running_task x w).kernel },
  ground arith,
  ch.2,
  λ ne. ground arith,
  λ q run. ground arith,
)

-- Any other task that goes on wakes the first sleeper of the queue and sleeps again,
-- uninterruptibly: the queue is as it was.
pub sleep_resume-other :
    (c x : TaskPtr) (w : Waiting) (saved : TaskPtr → TaskPtr) (xs : List TaskPtr)
    → Chain saved w.head (x ∷ xs)
    → c ≢ x
    → (v : Waiting) × (sleep_resume (saved c) (running_task c w) ≡ again v)
      × (v.head ≡ w.head)
      × (v.kernel.state v.head ≡ running)
      × (v.kernel.state c ≡ uninterruptible)
unfolding sleep_resume
sleep_resume-other c x w saved xs ch ne = (
  record w {
    kernel = set_state c uninterruptible (set_state w.head running (running_task c w).kernel);
  },
  ground arith,
  refl,
  ground arith,
  ground arith,
)

-- The sleepers `xs` go on in the order of the queue; `none` if one of them is not running when its
-- turn comes, or has to sleep again.
unfoldable pub drain : (saved : TaskPtr → TaskPtr) → List TaskPtr → Waiting → Option Waiting
drain saved [] w = some w
drain saved (x ∷ xs) w =
    if is_running (w.kernel.state x)
    then elim (sleep_resume (saved x) (running_task x w)) [
      | again v ↦ none
      | awake v ↦ drain saved xs v
    ]
    else none

drain_woken :
    (saved : TaskPtr → TaskPtr) (xs : List TaskPtr) (w : Waiting)
    → Chain saved w.head xs
    → (w.head ≢ 0 → w.kernel.state w.head ≡ running)
    → (v : Waiting) × (drain saved xs w ≡ some v)
      × (v.head ≡ 0)
      × All (λ x. v.kernel.state x ≡ running) xs
      × ((q : TaskPtr) → w.kernel.state q ≡ running → v.kernel.state q ≡ running)
unfolding drain
drain_woken saved [] w ch woken = (w, refl, ch, tt, λ q run. run)
drain_woken saved (x ∷ xs) w ch woken =
    let run : w.kernel.state x ≡ running =
      subst (λ q. w.kernel.state q ≡ running) ch.0 (woken (λ z. ch.1 (sym ch.0 ∙ z))) in
    let (u, e, ch', next, kept) = sleep_resume-head x w saved xs ch in
    let (v, e', empty, all, kept') = drain_woken saved xs u ch' next in
    (
      v,
      rw (run, drain) (rw e e'),
      empty,
      (kept' x (kept x run), all),
      λ q run. kept' q (kept q run),
    )

head-wake_up : (w : Waiting) → (wake_up w).head ≡ w.head
unfolding wake_up
head-wake_up w = ground arith

wake_up-running :
    (w : Waiting) → (wake_up w).head ≢ 0 → (wake_up w).kernel.state (wake_up w).head ≡ running
unfolding wake_up
wake_up-running w ne = ground arith

-- One `wake_up` is enough for a whole queue, whatever its sleepers' states: when the sleepers, which
-- their saved pointers link, go on in order, each is running when its turn comes, leaves the queue and
-- wakes the next, until the queue is empty and all of them are running.
pub drain-wake_up :
    (saved : TaskPtr → TaskPtr) (xs : List TaskPtr) (w : Waiting)
    → Chain saved w.head xs
    → (v : Waiting) × (drain saved xs (wake_up w) ≡ some v)
      × (v.head ≡ 0)
      × All (λ x. v.kernel.state x ≡ running) xs
drain-wake_up saved xs w ch =
    let same = subst (λ h. Chain saved h xs) (sym (head-wake_up w)) ch in
    let (v, e, empty, all, kept) = drain_woken saved xs (wake_up w) same (wake_up-running w) in
    (v, e, empty, all)
