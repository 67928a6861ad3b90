-- ===== src/Fork/Pid.antt =====
-- `find_empty_process` always ends, with a number that no process bears.
use mockos.Prelude.{
  ℕ, zero, suc, ◌+◌, ◌-◌, ◌*◌, ◌^◌, ◌<◌, ◌≤◌, ◌≡◌, ◌≢◌, sym, subst, arith, ltb, ◌==◌, ◌||◌, Bool,
  true, false, List, [], ◌∷◌, length, Option, none, some, if◌then◌else◌, inl, inr, Bool-cases,
  ==→eq,
}
use mockos.Sched.{nr_tasks}
use mockos.Fork.{
  Processes, next_pid, clashes, is_taken, find_pid, find_slot, pid_rounds, find_empty_process,
}

abbrev pid_end : ℕ
pid_end = 2 ^ 31

-- The number that is tried in the round `k`, counted from 1.
abbrev candidate : ℕ → ℕ → ℕ
candidate last k = if ltb (last + k) pid_end then last + k else last + k + 1 - pid_end

has : ℕ → List ℕ → Bool
has p [] = false
has p (x ∷ xs) = (x == p) || has p xs

erase : ℕ → List ℕ → List ℕ
erase p [] = []
erase p (x ∷ xs) = if x == p then xs else x ∷ erase p xs

length-erase : (p : ℕ) (xs : List ℕ) → has p xs ≡ true → length (erase p xs) + 1 ≡ length xs
unfolding has erase
length-erase p [] h = cc
length-erase p (x ∷ xs) h = ground (arith, length-erase p xs)

has-erase : (p q : ℕ) (xs : List ℕ) → q ≢ p → has q xs ≡ true → has q (erase p xs) ≡ true
unfolding has erase
has-erase p q [] ne h = h
has-erase p q (x ∷ xs) ne h = ground (arith, has-erase p q xs)

-- The numbers that the `n` slots from `i` on bear.
borne : Processes → ℕ → ℕ → List ℕ
borne s zero i = []
borne s (suc n) i =
    let rest = borne s n (i + 1) in
    if s.task i == 0 then rest else s.pid (s.task i) ∷ s.pgrp (s.task i) ∷ rest

length-borne : (s : Processes) (n i : ℕ) → length (borne s n i) ≤ 2 * n
unfolding borne
length-borne s zero i = omega arith
length-borne s (suc n) i = ground (arith, length-borne s n (i + 1))

has-borne : (s : Processes) (n i p : ℕ) → is_taken s n i p ≡ true → has p (borne s n i) ≡ true
unfolding borne is_taken has
has-borne s zero i p h = h
has-borne s (suc n) i p h = ground (arith, has-borne s n (i + 1) p)

next_pid-candidate : (last : ℕ) → last < pid_end → next_pid last ≡ candidate last 1
unfolding next_pid
next_pid-candidate last lt = ground arith

candidate_later :
    (last k : ℕ)
    → last < pid_end
    → 0 < k
    → k + 1 < pid_end
    → (candidate (next_pid last) k ≡ candidate last (k + 1))
      × (candidate last (k + 1) ≢ next_pid last)
unfolding next_pid
candidate_later last k lt lo hi = ground arith

next_pid_range : (last : ℕ) → last < pid_end → (0 < next_pid last) × (next_pid last < pid_end)
unfolding next_pid
next_pid_range last lt = ground arith

-- With more rounds than numbers in the way, one of the candidates is free.
find_pid_total :
    (fuel : ℕ) (s : Processes) (last : ℕ) (inWay : List ℕ)
    → fuel + 1 < pid_end
    → last < pid_end
    → ((k : ℕ)
        → 0 < k
        → k ≤ fuel
        → is_taken s nr_tasks 0 (candidate last k) ≡ true
        → has (candidate last k) inWay ≡ true)
    → length inWay < fuel
    → (p : ℕ) × (find_pid fuel s last ≡ some p)
      × (0 < p)
      × (p < pid_end)
      × (is_taken s nr_tasks 0 p ≡ false)
unfolding find_pid
find_pid_total zero s last inWay small lt caught few = absurd (omega arith)
find_pid_total (suc fuel) s last inWay small lt caught few =
    elim (Bool-cases (is_taken s nr_tasks 0 (next_pid last))) [
      | inr free ↦
          (next_pid last, rw free, (next_pid_range last lt).0, (next_pid_range last lt).1, free)
      | inl taken ↦
          let one = next_pid-candidate last lt in
          let hit =
            caught 1 (omega arith) (omega arith)
              (subst (λ p. is_taken s nr_tasks 0 p ≡ true) one taken) in
          let shorter =
            length-erase (next_pid last) inWay (subst (λ p. has p inWay ≡ true) (sym one) hit) in
          rw taken (
            find_pid_total fuel s (next_pid last) (erase (next_pid last) inWay) (omega arith)
              (next_pid_range last lt).1 (later one) (omega (arith, shorter)))
    ]
  where
    later :
        next_pid last ≡ candidate last 1
        → (k : ℕ) → 0 < k
        → k ≤ fuel
        → is_taken s nr_tasks 0 (candidate (next_pid last) k) ≡ true
        → has (candidate (next_pid last) k) (erase (next_pid last) inWay) ≡ true
    later one k lo hi taken =
        let (e, ne) = candidate_later last k lt lo (omega arith) in
        rw e (
          has-erase (next_pid last) (candidate last (k + 1)) inWay ne (
            caught (k + 1) (omega arith) (omega arith)
              (subst (λ p. is_taken s nr_tasks 0 p ≡ true) e taken)))

is_taken-clashes :
    (s : Processes) (n i p : ℕ)
    → is_taken s n i p ≡ false
    → (j : ℕ) → i ≤ j
    → j < i + n
    → clashes s j p ≡ false
unfolding is_taken
is_taken-clashes s zero i p h j lo hi = absurd (omega arith)
is_taken-clashes s (suc n) i p h j lo hi = elim (Bool-cases (i == j)) [
  | inl e ↦ rw (← ==→eq i j e) (ground arith)
  | inr e ↦ is_taken-clashes s n (i + 1) p (ground arith) j (ground arith) (omega arith)
]

-- What the second loop finds: the first free slot, or none.
pub data Slot (s : Processes) (n i : ℕ) : Option ℕ → Type 0 where
  free :
      (j : ℕ)
      → i ≤ j
      → j < i + n
      → s.task j ≡ 0
      → ((k : ℕ) → i ≤ k → k < j → s.task k ≢ 0)
      → Slot s n i (some j)
  full : ((k : ℕ) → i ≤ k → k < i + n → s.task k ≢ 0) → Slot s n i none

below_suc :
    (s : Processes) (i j : ℕ)
    → s.task i ≢ 0
    → ((k : ℕ) → i + 1 ≤ k → k < j → s.task k ≢ 0)
    → (k : ℕ) → i ≤ k
    → k < j
    → s.task k ≢ 0
below_suc s i j here later k lo hi = elim (Bool-cases (i == k)) [
  | inl e ↦ rw (← ==→eq i k e) here
  | inr e ↦ later k (ground arith) hi
]

Slot-suc :
    (s : Processes) (n i : ℕ) {r : Option ℕ}
    → s.task i ≢ 0
    → Slot s n (i + 1) r
    → Slot s (suc n) i r
Slot-suc s n i here (free j lo hi empty above) =
    free j (omega arith) (omega arith) empty (below_suc s i j here above)
Slot-suc s n i here (full all) =
    full (λ k lo hi. below_suc s i (i + 1 + n) here all k lo (omega arith))

find_slot-Slot : (s : Processes) (n i : ℕ) → Slot s n i (find_slot s n i)
unfolding find_slot
find_slot-Slot s zero i = full (λ k lo hi. absurd (omega arith))
find_slot-Slot s (suc n) i = elim (Bool-cases (s.task i == 0)) [
  | inl e ↦
      rw e (free i (omega arith) (omega arith) (==→eq _ 0 e) (λ k lo hi. absurd (omega arith)))
  | inr e ↦ rw e (Slot-suc s n i (λ z. ground arith) (find_slot-Slot s n (i + 1)))
]

-- From a `last_pid` below 2 ^ 31, `find_empty_process` ends: 129 rounds are enough, since 64 tasks
-- bear at most 128 numbers. The new `last_pid` is positive, below 2 ^ 31, and no task's number or
-- group; the result is the first free slot from 1 on, or -EAGAIN if there is none. The table and
-- its tasks are left alone.
pub find_empty_process_total :
    (s : Processes)
    → s.last_pid < 2 ^ 31
    → (r : Option ℕ) × (p : ℕ) × (find_empty_process s ≡ some (r, record s { last_pid = p }))
      × Slot s 63 1 r
      × (0 < p)
      × (p < 2 ^ 31)
      × ((j : ℕ) → j < nr_tasks → clashes s j p ≡ false)
unfolding find_empty_process
find_empty_process_total s lt =
    let (p, e, lo, hi, unborne) =
      find_pid_total pid_rounds s s.last_pid (borne s nr_tasks 0) (omega arith) lt
        (λ k a b. has-borne s nr_tasks 0 (candidate s.last_pid k))
        (omega (arith, length-borne s nr_tasks 0)) in
    (
      find_slot s 63 1,
      p,
      rw (e, find_empty_process),
      find_slot-Slot s 63 1,
      lo,
      hi,
      λ j small. is_taken-clashes s nr_tasks 0 p unborne j (omega arith) (omega arith),
    )
