-- ===== src/Sched/Mutex.antt =====
-- `sys_klock` and `sys_kunlock` of kernel/sched.c, with one of the locks and any number of tasks.
-- `cli` keeps the test of the lock and the store behind it together; a task that finds the lock taken
-- sleeps in `sleep_on` and tests again when it goes on.
use mockos.Prelude.{
  ℕ, ◌≡◌, ◌≢◌, inl, inr, refl, ap, arith, ◌==◌, Bool, true, false, if◌then◌else◌, Bool-cases, ==→eq,
}

-- Where a task is: outside, before the test of the `while`, in `sleep_on`, or behind `sys_klock`.
pub data Place : Type 0 where
  outside testing sleeping inside : Place

abbrev pub is_inside : Place → Bool
is_inside inside = true
is_inside _ = false

abbrev pub is_testing : Place → Bool
is_testing testing = true
is_testing _ = false

-- `lock` is the lock's field, `place` where each task is.
pub record Mutex : Type 0 where
  pub lock : ℕ
  pub place : ℕ → Place

abbrev pub set_place : ℕ → Place → Mutex → Mutex
set_place t p s = record s { place = λ u. if t == u then p else s.place u }

-- The test of the `while`, with the sleep or the store of 1.
unfoldable pub klock_test : ℕ → Mutex → Mutex
klock_test t s =
    if s.lock == 0 then record (set_place t inside s) { lock = 1 } else set_place t sleeping s

-- kernel_mutxt_a[n].lock = 0; the `wake_up` is a step of its own.
unfoldable pub kunlock : ℕ → Mutex → Mutex
kunlock t s = record (set_place t outside s) { lock = 0 }

-- What can happen. Only a task that holds the lock gives it back, which `sys_kunlock` does not test.
pub data Step (s : Mutex) : Mutex → Type 0 where
  calls : (t : ℕ) → s.place t ≡ outside → Step s (set_place t testing s)
  tests : (t : ℕ) → s.place t ≡ testing → Step s (klock_test t s)
  wakes : (t : ℕ) → s.place t ≡ sleeping → Step s (set_place t testing s)
  unlocks : (t : ℕ) → s.place t ≡ inside → Step s (kunlock t s)

pub data Reaches (s : Mutex) : Mutex → Type 0 where
  here : Reaches s s
  later : {t u : Mutex} → Reaches s t → Step t u → Reaches s u

-- At most one task is inside, and the lock says whether one is.
pub record IsExclusive (s : Mutex) : Type 0 where
  pub alone : (t u : ℕ) → is_inside (s.place t) ≡ true → is_inside (s.place u) ≡ true → t ≡ u
  pub free : s.lock ≡ 0 → (t : ℕ) → is_inside (s.place t) ≡ false
  pub held : s.lock ≢ 0 → (t : ℕ) × (is_inside (s.place t) ≡ true)

moves-IsExclusive :
    (t : ℕ) (p : Place) (s : Mutex)
    → is_inside p ≡ false
    → is_inside (s.place t) ≡ false
    → IsExclusive s
    → IsExclusive (set_place t p s)
moves-IsExclusive t p s no_p no_t x = record {
  alone = λ u v a b. ground (arith, x.alone u v);
  free = λ z u. ground (arith, x.free z u);
  held = λ nz. let (u, inn) = x.held nz in (u, ground (arith, inn));
}

takes-IsExclusive :
    (t : ℕ) (s : Mutex)
    → s.lock ≡ 0
    → IsExclusive s
    → IsExclusive (record (set_place t inside s) { lock = 1 })
takes-IsExclusive t s z x = record {
  alone = λ u v a b. ground (arith, x.free z u, x.free z v);
  free = λ one. absurd (omega arith);
  held = λ nz. (t, ground arith);
}

unlocks-IsExclusive :
    (t : ℕ) (s : Mutex) → is_inside (s.place t) ≡ true → IsExclusive s → IsExclusive (kunlock t s)
unfolding kunlock
unlocks-IsExclusive t s inn x = record {
  alone = λ u v a b. ground (arith, x.alone u v);
  free = λ z u. elim (Bool-cases (is_inside (s.place u))) [
    | inl e ↦ let same = x.alone t u inn e in ground (arith, same)
    | inr e ↦ ground (arith, e)
  ];
  held = λ nz. absurd (nz refl);
}

tests-IsExclusive :
    (t : ℕ) (s : Mutex) → s.place t ≡ testing → IsExclusive s → IsExclusive (klock_test t s)
unfolding klock_test
tests-IsExclusive t s at x = elim (Bool-cases (s.lock == 0)) [
  | inl e ↦ rw e (takes-IsExclusive t s (==→eq s.lock 0 e) x)
  | inr e ↦ rw e (moves-IsExclusive t sleeping s refl (ap is_inside at) x)
]

Step-IsExclusive : {s u : Mutex} → Step s u → IsExclusive s → IsExclusive u
Step-IsExclusive {s} (calls t at) x = moves-IsExclusive t testing s refl (ap is_inside at) x
Step-IsExclusive {s} (tests t at) x = tests-IsExclusive t s at x
Step-IsExclusive {s} (wakes t at) x = moves-IsExclusive t testing s refl (ap is_inside at) x
Step-IsExclusive {s} (unlocks t at) x = unlocks-IsExclusive t s (ap is_inside at) x

-- If only holders unlock, then from a free lock with no task inside, in every order of steps, at
-- most one task is behind `sys_klock` at a time, none when the lock is 0, and one when it is not.
pub klock-IsExclusive :
    (s u : Mutex)
    → s.lock ≡ 0
    → ((t : ℕ) → is_inside (s.place t) ≡ false)
    → Reaches s u
    → IsExclusive u
klock-IsExclusive s u z none here = record {
  alone = λ t v a b. ground (arith, none t);
  free = λ z' t. none t;
  held = λ nz. absurd (nz z);
}
klock-IsExclusive s u z none (later {t = t} r step) =
    Step-IsExclusive step (klock-IsExclusive s t z none r)
