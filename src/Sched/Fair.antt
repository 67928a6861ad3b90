-- ===== src/Sched/Fair.antt =====
-- Round robin: a task that stays runnable gets the processor within NR_TASKS - 1 ticks.
use mockos.Prelude.{
  ℕ, zero, suc, ◌+◌, ◌-◌, ◌%◌, ◌<◌, ◌≤◌, ◌≡◌, ◌≢◌, inl, inr, refl, sym, ap, ◌∙◌, arith, ◌==◌, ltb,
  true, Option, none, some, if◌then◌else◌, Bool-cases, ==→eq,
}
use mockos.Sched.{nr_tasks, Kernel, Decision, runnable, switch_to, perform, schedule}
use mockos.Sched.Choice.{IsCurrent, Stops, at_current, at_task, schedule-Stops_at}

-- No task stands in two slots, and the current one stands in the slot `c`.
pub record IsTable (s : Kernel) (c : ℕ) : Type 0 where
  pub distinct :
      (i j : ℕ) → i < nr_tasks → j < nr_tasks → s.task i ≢ 0 → s.task i ≡ s.task j → i ≡ j
  pub in_range : c < nr_tasks
  pub here : s.task c ≡ s.current
  pub exists : s.current ≢ 0

IsTable-IsCurrent : {s : Kernel} {c : ℕ} → IsTable s c → IsCurrent s c
IsTable-IsCurrent {s} {c} t = record {
  holds = t.here;
  first = λ j lt e. omega (
    arith,
    t.distinct c j t.in_range (omega (arith, t.in_range)) (λ z. t.exists (sym t.here ∙ z))
        (t.here ∙ sym e),
  );
}

-- slots from `c` on to `k`, round the end
abbrev pub distance : ℕ → ℕ → ℕ
distance c k = (k + nr_tasks - c) % nr_tasks

-- where the search from `c` meets the slot `k`
abbrev meeting : ℕ → ℕ → ℕ
meeting c k = if ltb c k then k else k + nr_tasks

-- After a tick with `k` runnable, the current task's slot is nearer to `k`.
record Nearer (s : Kernel) (c k : ℕ) (t : Kernel) : Type 0 where
  slot : ℕ
  table : IsTable t slot
  nearer : distance slot k < distance c k
  same_task : t.task ≡ s.task
  same_state : t.state ≡ s.state

meeting_bounds :
    (c k : ℕ)
    → c < nr_tasks
    → k < nr_tasks
    → k ≢ c
    → (c < meeting c k) × (meeting c k < c + nr_tasks) × (meeting c k % nr_tasks ≡ k)
meeting_bounds c k lc lk ne = ground arith

distance_lt :
    (c k p : ℕ)
    → c < nr_tasks
    → k < nr_tasks
    → c < p
    → p ≤ meeting c k
    → meeting c k < c + nr_tasks
    → distance (p % nr_tasks) k < distance c k
distance_lt c k p lc lk lo hi top = ground arith

runnable_task : (s : Kernel) (k : ℕ) → runnable s k ≡ true → s.task k ≢ 0
runnable_task s k run z = ground arith

stop-Nearer :
    {s : Kernel} {c k : ℕ} {d : Decision}
    → IsTable s c
    → k < nr_tasks
    → k ≢ c
    → Stops s (c + 1) (meeting c k) d
    → Nearer s c k (perform d s)
unfolding switch_to
stop-Nearer {s} {c} {k} t lt ne (at_current p lo hi at before) =
    let same =
      t.distinct c (p % nr_tasks) t.in_range (omega arith) (λ z. t.exists (sym t.here ∙ z))
        (t.here ∙ sym at) in
    absurd (omega (arith, same, (meeting_bounds c k t.in_range lt ne).1))
stop-Nearer {s} {c} {k} t lt ne (at_task p lo hi other run before) = record {
  slot = p % nr_tasks;
  table = record {
    distinct = t.distinct;
    in_range = omega arith;
    here = refl;
    exists = runnable_task s (p % nr_tasks) run;
  };
  nearer = distance_lt c k p t.in_range lt (omega arith) hi (meeting_bounds c k t.in_range lt ne).1;
  same_task = refl;
  same_state = refl;
}

tick-Nearer :
    (s : Kernel) (c k : ℕ)
    → IsTable s c
    → k < nr_tasks
    → k ≢ c
    → runnable s k ≡ true
    → (t : Kernel) × (schedule s ≡ some t) × Nearer s c k t
tick-Nearer s c k tab lt ne run =
    let b = meeting_bounds c k tab.in_range lt ne in
    let (d, e, st) =
      schedule-Stops_at c (meeting c k) s (IsTable-IsCurrent tab) tab.in_range b.0
        (omega (arith, b.1)) (inr (ap (runnable s) b.2 ∙ run)) in
    (perform d s, e, stop-Nearer tab lt ne st)

-- What runs between two ticks: it may change the states of tasks, but not the table, the current
-- task or the task in slot `k`, which stays runnable.
pub record Spares (k : ℕ) (env : ℕ → Kernel → Kernel) : Type 0 where
  pub same_task : (n : ℕ) (s : Kernel) → (env n s).task ≡ s.task
  pub same_current : (n : ℕ) (s : Kernel) → (env n s).current ≡ s.current
  pub stays : (n : ℕ) (s : Kernel) → runnable s k ≡ true → runnable (env n s) k ≡ true

-- `n` ticks, each followed by what runs until the next.
unfoldable pub ticks : (env : ℕ → Kernel → Kernel) → ℕ → Kernel → Option Kernel
ticks env zero s = some s
ticks env (suc n) s = elim (schedule s) [
  | none ↦ none
  | some t ↦ ticks (λ i. env (suc i)) n (env zero t)
]

env-IsTable :
    {s t : Kernel} {c : ℕ} → s.task ≡ t.task → s.current ≡ t.current → IsTable t c → IsTable s c
env-IsTable {s} {t} {c} p q tab = record {
  distinct = rw p tab.distinct;
  in_range = tab.in_range;
  here = rw (p, q) tab.here;
  exists = rw q tab.exists;
}

runnable_same :
    (s t : Kernel) (k : ℕ)
    → t.task ≡ s.task
    → t.state ≡ s.state
    → runnable s k ≡ true
    → runnable t k ≡ true
runnable_same s t k p q run = rw (p, q) run

-- In a table in which no task stands twice and the current task stands in the slot `c`, the task
-- of a slot `k` that is runnable, and stays so whatever runs between the ticks as long as that
-- leaves table and current task alone, becomes the current task after at most as many ticks as
-- there are slots from `c` on to `k`, round the end.
pub ticks_reach :
    (n c k : ℕ) (env : ℕ → Kernel → Kernel) (s : Kernel)
    → IsTable s c
    → k < nr_tasks
    → runnable s k ≡ true
    → Spares k env
    → distance c k ≤ n
    → (m : ℕ) × (m ≤ n) × (t : Kernel) × (ticks env m s ≡ some t) × (t.current ≡ s.task k)
unfolding ticks
ticks_reach zero c k env s tab lt run spares near =
    (0, omega arith, s, refl, sym tab.here ∙ ap s.task (omega (arith, tab.in_range)))
ticks_reach (suc n) c k env s tab lt run spares near = elim (Bool-cases (k == c)) [
  | inl e ↦ (0, omega arith, s, refl, sym tab.here ∙ ap s.task (sym (==→eq k c e)))
  | inr e ↦
      let (t, tick, near') = tick-Nearer s c k tab lt (λ z. ground arith) run in
      let later : Spares k (λ i. env (suc i)) = record {
        same_task = λ i. spares.same_task (suc i);
        same_current = λ i. spares.same_current (suc i);
        stays = λ i. spares.stays (suc i);
      } in
      let (m, few, u, ran, now) =
        ticks_reach n near'.slot k (λ i. env (suc i)) (env zero t)
          (env-IsTable (spares.same_task zero t) (spares.same_current zero t) near'.table) lt
          (spares.stays zero t (runnable_same s t k near'.same_task near'.same_state run)) later
          (omega (arith, near'.nearer)) in
      (
        suc m,
        omega (arith, few),
        u,
        rw (tick, ticks) ran,
        now ∙ ap (λ f. f k) (spares.same_task zero t ∙ near'.same_task),
      )
]
