-- ===== src/Strings/Find/Places.antt =====
-- `strchr`, `strrchr` and `memchr` of include/string.h: the first or the last place of a byte.
use mockos.Prelude.{
  ℕ, zero, suc, ◌+◌, ◌-◌, ◌<◌, ◌≤◌, ◌≡◌, ◌≢◌, inl, inr, subst, arith, ◌==◌, false, List, [], ◌∷◌,
  length, some, if◌then◌else◌, Bool-cases, ==→eq,
}
use mockos.Strings.{Bytes, repne_scasb}
use mockos.Strings.Text.{IsText}
use mockos.Strings.Find.{strchr, find_last, strrchr, memchr}

-- The answer of a search for the byte `c` among the `n` bytes from `s` on: an address or NULL.
pub data First (m : Bytes) (s n c : ℕ) : ℕ → Type 0 where
  first :
      (a : ℕ) → s ≤ a → a < s + n → m a ≡ c → ((b : ℕ) → s ≤ b → b < a → m b ≢ c) → First m s n c a
  nowhere : ((b : ℕ) → s ≤ b → b < s + n → m b ≢ c) → First m s n c 0

pub data Last (m : Bytes) (s n c : ℕ) : ℕ → Type 0 where
  last :
      (a : ℕ)
      → s ≤ a
      → a < s + n
      → m a ≡ c
      → ((b : ℕ) → a < b → b < s + n → m b ≢ c)
      → Last m s n c a
  missing : ((b : ℕ) → s ≤ b → b < s + n → m b ≢ c) → Last m s n c 0

from_suc :
    (m : Bytes) (s e c : ℕ)
    → m s ≢ c
    → ((b : ℕ) → s + 1 ≤ b → b < e → m b ≢ c)
    → (b : ℕ) → s ≤ b
    → b < e
    → m b ≢ c
from_suc m s e c ne later b lo hi = elim (Bool-cases (b == s)) [
  | inl q ↦ rw (==→eq b s q) ne
  | inr q ↦ later b (ground arith) hi
]

First-suc : {m : Bytes} {s n c a : ℕ} → m s ≢ c → First m (s + 1) n c a → First m s (suc n) c a
First-suc {m} {s} {n} {c} ne (first a lo hi e before) =
    first a (omega arith) (omega arith) e (from_suc m s a c ne before)
First-suc {m} {s} {n} {c} ne (nowhere all) =
    nowhere (λ b lo hi. from_suc m s (s + 1 + n) c ne all b lo (omega arith))

at_start : (m : Bytes) (s n c : ℕ) → m s ≡ c → First m s (suc n) c s
at_start m s n c e = first s (omega arith) (omega arith) e (λ b lo hi. absurd (omega arith))

only : (m : Bytes) (s c b : ℕ) → m s ≢ c → s ≤ b → b ≤ s → m b ≢ c
only m s c b ne lo hi = subst (λ x. m x ≢ c) (omega arith) ne

-- For a text of `xs` and more rounds than it has bytes: `strchr` ends with the address of the first
-- place of `c` among the bytes of the text and its end, or with NULL if there is none.
pub strchr-First :
    (fuel s c : ℕ) (m : Bytes) (xs : List ℕ)
    → IsText m s xs
    → length xs < fuel
    → (a : ℕ) × (strchr fuel s c m ≡ some a) × First m s (suc (length xs)) c a
unfolding strchr
strchr-First zero s c m xs t lt = absurd (omega arith)
strchr-First (suc n) s c m [] t lt = elim (Bool-cases (m s == c)) [
  | inl e ↦ (s, ground arith, at_start m s 0 c (==→eq (m s) c e))
  | inr e ↦
      (0, ground arith, nowhere (λ b lo hi. only m s c b (λ q. ground arith) lo (omega arith)))
]
strchr-First (suc n) s c m (x ∷ xs) (h, ne, t) lt = elim (Bool-cases (m s == c)) [
  | inl e ↦ (s, ground arith, at_start m s (suc (length xs)) c (==→eq (m s) c e))
  | inr e ↦
      let (a, ran, f) = strchr-First n (s + 1) c m xs t (omega arith) in
      (a, ground (arith, ran), First-suc (λ q. ground arith) f)
]

scan-First :
    (n s c : ℕ) (m : Bytes)
    → let r = repne_scasb n s c false m in First m s n c (if r.zf then r.edi - 1 else 0)
unfolding repne_scasb
scan-First zero s c m = nowhere (λ b lo hi. absurd (omega arith))
scan-First (suc n) s c m = elim (Bool-cases (m s == c)) [
  | inl e ↦
      rw (e, repne_scasb)
        (subst (First m s (suc n) c) (omega arith) (at_start m s n c (==→eq (m s) c e)))
  | inr e ↦ rw (e, repne_scasb) (First-suc (λ q. ground arith) (scan-First n (s + 1) c m))
]

-- `memchr` is the address of the first place of `c` among the `count` bytes, or NULL if there is none.
pub memchr-First : (cs c count : ℕ) (m : Bytes) → First m cs count c (memchr cs c count m)
unfolding memchr
memchr-First cs c zero m = nowhere (λ b lo hi. absurd (omega arith))
memchr-First cs c (suc n) m = scan-First (suc n) cs c m

-- What `find_last` answers from the address `esi` on, with `found` from before.
data Later (m : Bytes) (s n c found : ℕ) : ℕ → Type 0 where
  later : {a : ℕ} → Last m s n c a → s ≤ a → a < s + n → Later m s n c found a
  before : ((b : ℕ) → s ≤ b → b < s + n → m b ≢ c) → Later m s n c found found

Later-suc :
    {m : Bytes} {s n c found a : ℕ}
    → m s ≢ c
    → Later m (s + 1) n c found a
    → Later m s (suc n) c found a
Later-suc ne (later (last a lo hi e above) lo' hi') =
    later (last a (omega arith) (omega arith) e (λ b l h. above b l (omega arith))) (omega arith)
      (omega arith)
Later-suc ne (later (missing all) lo hi) = absurd (omega arith)
Later-suc {m} {s} {n} {c} ne (before all) =
    before (λ b lo hi. from_suc m s (s + 1 + n) c ne all b lo (omega arith))

Later-here :
    {m : Bytes} {s n c found a : ℕ}
    → m s ≡ c
    → Later m (s + 1) n c s a
    → Later m s (suc n) c found a
Later-here at (later (last a lo hi e above) lo' hi') =
    later (last a (omega arith) (omega arith) e (λ b l h. above b l (omega arith))) (omega arith)
      (omega arith)
Later-here at (later (missing all) lo hi) = absurd (omega arith)
Later-here {s} at (before all) =
    later (last s (omega arith) (omega arith) at (λ b l h. all b (omega arith) (omega arith)))
      (omega arith) (omega arith)

Later-Last : {m : Bytes} {s n c a : ℕ} → Later m s n c 0 a → Last m s n c a
Later-Last (later l lo hi) = l
Later-Last (before all) = missing all

find_last-Later :
    (fuel esi found c : ℕ) (m : Bytes) (xs : List ℕ)
    → IsText m esi xs
    → length xs < fuel
    → (a : ℕ) × (find_last fuel esi found c m ≡ some a) × Later m esi (suc (length xs)) c found a
unfolding find_last
find_last-Later zero esi found c m xs t lt = absurd (omega arith)
find_last-Later (suc n) esi found c m [] t lt = elim (Bool-cases (m esi == c)) [
  | inl e ↦ (
    esi,
    ground arith,
    later (last esi (omega arith) (omega arith) (==→eq _ _ e) (λ b lo hi. absurd (omega arith)))
        (omega arith) (omega arith),
  )
  | inr e ↦
      (found, ground arith, before (λ b lo hi. only m esi c b (λ q. ground arith) lo (omega arith)))
]
find_last-Later (suc n) esi found c m (x ∷ xs) (h, ne, t) lt = elim (Bool-cases (m esi == c)) [
  | inl e ↦
      let (a, ran, f) = find_last-Later n (esi + 1) esi c m xs t (omega arith) in
      (a, ground (arith, ran), Later-here (==→eq _ _ e) f)
  | inr e ↦
      let (a, ran, f) = find_last-Later n (esi + 1) found c m xs t (omega arith) in
      (a, ground (arith, ran), Later-suc (λ q. ground arith) f)
]

-- For a text of `xs` and more rounds than it has bytes: `strrchr` ends with the address of the last
-- place of `c` among the bytes of the text and its end, or with NULL if there is none.
pub strrchr-Last :
    (fuel s c : ℕ) (m : Bytes) (xs : List ℕ)
    → IsText m s xs
    → length xs < fuel
    → (a : ℕ) × (strrchr fuel s c m ≡ some a) × Last m s (suc (length xs)) c a
unfolding strrchr
strrchr-Last fuel s c m xs t lt =
    let (a, ran, f) = find_last-Later fuel s 0 c m xs t lt in (a, ran, Later-Last f)
