-- ===== src/Sched/Choice.antt =====
-- `schedule` takes the next task that can run, in the order of the slots.
use mockos.Prelude.{
  ℕ, zero, suc, ◌+◌, ◌%◌, ◌<◌, ◌≤◌, ◌≡◌, ◌≢◌, ◌⊎◌, inl, inr, refl, sym, ap, ◌∙◌, arith, ◌==◌, true,
  false, some, subst, Bool-cases, ==→eq, eq→==,
}
use mockos.Sched.{
  nr_tasks, Kernel, Decision, stay, switch, find_current, runnable, next_task, perform, schedule,
}

-- The slot `i` is the first that holds the current task.
pub record IsCurrent (s : Kernel) (i : ℕ) : Type 0 where
  pub holds : s.task i ≡ s.current
  pub first : (j : ℕ) → j < i → s.task j ≢ s.current

find_current_lem :
    (fuel i c : ℕ) (s : Kernel)
    → IsCurrent s c
    → i ≤ c
    → c < i + fuel
    → find_current fuel i s ≡ some c
unfolding find_current
find_current_lem zero i c s at lo hi = absurd (omega arith)
find_current_lem (suc fuel) i c s at lo hi = elim (Bool-cases (i == c)) [
  | inl e ↦ rw (==→eq i c e, eq→== _ _ at.holds)
  | inr e ↦ ground (arith, at.first i, find_current_lem fuel (i + 1) c s at)
]

-- The slot of the position `q` ends no search: it holds neither the current nor a runnable task.
pub record IsQuiet (s : Kernel) (q : ℕ) : Type 0 where
  pub other : s.task (q % nr_tasks) ≢ s.current
  pub idle : runnable s (q % nr_tasks) ≡ false

-- The loop of `schedule`, at the positions from `i` on counted without the wrap: it stops at `p`, not
-- after `e`.
pub data Stops (s : Kernel) (i e : ℕ) : Decision → Type 0 where
  at_current :
      (p : ℕ)
      → i ≤ p
      → p ≤ e
      → s.task (p % nr_tasks) ≡ s.current
      → ((q : ℕ) → i ≤ q → q < p → IsQuiet s q)
      → Stops s i e stay
  at_task :
      (p : ℕ)
      → i ≤ p
      → p ≤ e
      → s.task (p % nr_tasks) ≢ s.current
      → runnable s (p % nr_tasks) ≡ true
      → ((q : ℕ) → i ≤ q → q < p → IsQuiet s q)
      → Stops s i e (switch (p % nr_tasks))

IsQuiet-from :
    {s : Kernel} (i p : ℕ)
    → IsQuiet s i
    → ((q : ℕ) → i + 1 ≤ q → q < p → IsQuiet s q)
    → (q : ℕ) → i ≤ q
    → q < p
    → IsQuiet s q
IsQuiet-from {s} i p here later q lo hi = elim (Bool-cases (i == q)) [
  | inl e ↦ subst (IsQuiet s) (==→eq i q e) here
  | inr e ↦ later q (ground arith) hi
]

Stops-cons :
    {s : Kernel} {d : Decision} (i e : ℕ) → IsQuiet s i → Stops s (i + 1) e d → Stops s i e d
Stops-cons i e here (at_current p lo hi at before) =
    at_current p (omega arith) hi at (IsQuiet-from i p here before)
Stops-cons i e here (at_task p lo hi ne run before) =
    at_task p (omega arith) hi ne run (IsQuiet-from i p here before)

after :
    (i e : ℕ) (s : Kernel)
    → i ≤ e
    → (s.task (e % nr_tasks) ≡ s.current) ⊎ (runnable s (e % nr_tasks) ≡ true)
    → IsQuiet s i
    → i + 1 ≤ e
after i e s lo hit quiet = elim (Bool-cases (i == e)) [
  | inl q ↦ absurd (clash (subst (IsQuiet s) (==→eq i e q) quiet) hit)
  | inr q ↦ ground arith
]
  where
    clash :
        IsQuiet s e → (s.task (e % nr_tasks) ≡ s.current) ⊎ (runnable s (e % nr_tasks) ≡ true) → ⊥
    clash k (inl c) = k.other c
    clash k (inr r) = cc (sym r ∙ k.idle)

-- The search has an answer if some position `e` within its fuel holds the current or a runnable
-- task.
pub next_task-Stops :
    (fuel i e : ℕ) (s : Kernel)
    → i ≤ e
    → e < i + fuel
    → (s.task (e % nr_tasks) ≡ s.current) ⊎ (runnable s (e % nr_tasks) ≡ true)
    → (d : Decision) × (next_task fuel i s ≡ some d) × Stops s i e d
unfolding next_task
next_task-Stops zero i e s lo hi hit = absurd (omega arith)
next_task-Stops (suc fuel) i e s lo hi hit =
    elim (Bool-cases (s.task (i % nr_tasks) == s.current)) [
      | inl c ↦
          rw c (
            stay,
            refl,
            at_current i (omega arith) lo (==→eq _ _ c) (λ q a b. absurd (omega arith)),
          )
      | inr c ↦ elim (Bool-cases (runnable s (i % nr_tasks))) [
        | inl r ↦
            rw (c, r)
              (
                switch (i % nr_tasks),
                refl,
                at_task i (omega arith) lo (λ z. ground arith) r (λ q a b. absurd (omega arith)),
              )
        | inr r ↦
            let quiet : IsQuiet s i = record { other = λ z. ground arith; idle = r } in
            let (d, eq, st) =
              next_task-Stops fuel (i + 1) e s (after i e s lo hit quiet) (omega arith) hit in
            rw (c, r) (d, eq, Stops-cons i e quiet st)
      ]
    ]

-- The same bound for `schedule`, from the slot of the current task on.
pub schedule-Stops_at :
    (c e : ℕ) (s : Kernel)
    → IsCurrent s c
    → c < nr_tasks
    → c < e
    → e ≤ c + nr_tasks
    → (s.task (e % nr_tasks) ≡ s.current) ⊎ (runnable s (e % nr_tasks) ≡ true)
    → (d : Decision) × (schedule s ≡ some (perform d s)) × Stops s (c + 1) e d
unfolding schedule
schedule-Stops_at c e s at lt lo hi hit =
    let (d, eq, st) = next_task-Stops nr_tasks (c + 1) e s (omega arith) (omega arith) hit in
    (d, rw (find_current_lem nr_tasks 0 c s at (omega arith) (omega arith), eq, schedule), st)

-- With the current task in slot `c` below NR_TASKS and in no slot before it, `schedule` returns,
-- and the choice is the first task in the order of the slots from `c + 1` on, round the end, that
-- can run; if there is none up to `c` again, the current task goes on.
pub schedule-Stops :
    (c : ℕ) (s : Kernel)
    → IsCurrent s c
    → c < nr_tasks
    → (d : Decision) × (schedule s ≡ some (perform d s)) × Stops s (c + 1) (c + nr_tasks) d
schedule-Stops c s at lt =
    let wrap : (c + nr_tasks) % nr_tasks ≡ c = omega arith in
    schedule-Stops_at c (c + nr_tasks) s at lt (omega arith) (omega arith)
      (inl (ap s.task wrap ∙ at.holds))
