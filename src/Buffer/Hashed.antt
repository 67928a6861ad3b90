-- ===== src/Buffer/Hashed.antt =====
-- All hash queues of fs/buffer.c at once: what holds between calls, and that it is kept.
use mockos.Prelude.{
  ℕ, ◌≡◌, ◌≢◌, refl, sym, ap, subst, ◌∙◌, arith, ◌==◌, false, List, [], ◌∷◌, ◌++◌, All,
  if◌then◌else◌, inl, inr, Bool-cases, ==→eq, eq→==, Distinct,
}
use mockos.Buffer.{HeadPtr, Cache, slot}
use mockos.Buffer.Ring.{Without, In}
use mockos.Buffer.Hash.{IsQueue}

-- `x` stands in its right queue, and has a device.
abbrev pub InPlace : Cache → ℕ → HeadPtr → Type 0
InPlace s i x = (slot s x ≡ i) × (s.b_dev x ≢ 0)

-- The slot `i` holds the queue `q i`.
pub record IsHashed (s : Cache) (q : ℕ → List HeadPtr) : Type 0 where
  pub queue : (i : ℕ) → IsQueue s i (q i)
  pub in_place : (i : ℕ) → All (InPlace s i) (q i)
  pub distinct : (i : ℕ) → Distinct (q i)

abbrev pub erase : HeadPtr → List HeadPtr → List HeadPtr
erase b [] = []
erase b (x ∷ xs) = if x == b then xs else x ∷ erase b xs

pub erase-same : (b : HeadPtr) (xs : List HeadPtr) → Without b xs → erase b xs ≡ xs
erase-same b [] out = refl
erase-same b (x ∷ xs) out = ground (arith, out.0, erase-same b xs out.1)

pub All-erase :
    (P : HeadPtr → Type 0) (b : HeadPtr) (xs : List HeadPtr) → All P xs → All P (erase b xs)
All-erase P b [] all = tt
All-erase P b (x ∷ xs) all = elim (Bool-cases (x == b)) [
  | inl e ↦ rw e all.1
  | inr e ↦ rw e (all.0, All-erase P b xs all.1)
]

pub Distinct-erase : (b : HeadPtr) (xs : List HeadPtr) → Distinct xs → Distinct (erase b xs)
Distinct-erase b [] d = tt
Distinct-erase b (x ∷ xs) d = elim (Bool-cases (x == b)) [
  | inl e ↦ rw e d.1
  | inr e ↦ rw e (All-erase (λ y. y ≢ x) b xs d.0, Distinct-erase b xs d.1)
]

pub erase-Without : (b : HeadPtr) (xs : List HeadPtr) → Distinct xs → Without b (erase b xs)
erase-Without b [] d = tt
erase-Without b (x ∷ xs) d = elim (Bool-cases (x == b)) [
  | inl e ↦ rw e (subst (λ c. Without c xs) (==→eq x b e) d.0)
  | inr e ↦ rw e ((λ z. ground arith), erase-Without b xs d.1)
]

-- A list with `b` in it, taken apart there.
pub record Split (b : HeadPtr) (xs : List HeadPtr) : Type 0 where
  pub before : List HeadPtr
  pub behind : List HeadPtr
  pub whole : xs ≡ before ++ b ∷ behind
  pub without : Without b (before ++ behind)
  pub erased : erase b xs ≡ before ++ behind

pub In-Split : (b : HeadPtr) (xs : List HeadPtr) → In b xs → Distinct xs → Split b xs
In-Split b [] i d = absurd i
In-Split b (x ∷ xs) (inl e) d = record {
  before = [];
  behind = xs;
  whole = ap (λ c. c ∷ xs) (sym e);
  without = subst (λ c. Without c xs) (sym e) d.0;
  erased = rw (eq→== x b (sym e)) refl;
}
In-Split b (x ∷ xs) (inr i) d =
    let r = In-Split b xs i d.1 in
    let ne : x ≢ b = distinct_from xs i d.0 in
    let no_hit : (x == b) ≡ false = ground arith in
    record {
      before = x ∷ r.before;
      behind = r.behind;
      whole = ap (λ l. x ∷ l) r.whole;
      without = (ne, r.without);
      erased = rw no_hit (ap (λ l. x ∷ l) r.erased);
    }
  where
    distinct_from : (ys : List HeadPtr) → In b ys → Without x ys → x ≢ b
    distinct_from [] i out z = i
    distinct_from (y ∷ ys) (inl e) out z = out.0 (sym e ∙ sym z)
    distinct_from (y ∷ ys) (inr i) out z = distinct_from ys i out.1 z
