-- ===== src/Buffer/Hash.antt =====
-- The hash queues of fs/buffer.c: lists through `b_next` and `b_prev` that end with NULL.
use mockos.Prelude.{
  ◌⊎◌, ℕ, zero, suc, ◌<◌, ◌≡◌, ◌≢◌, refl, sym, ap, subst, ◌∙◌, arith, ◌==◌, ◌&&◌, List, [], ◌∷◌,
  ◌++◌, length, All, inl, inr, Bool-cases, some,
}
use mockos.Buffer.{HeadPtr, Cache, hashfn, remove_from_hash, find_from, find_buffer}
use mockos.Buffer.Ring.{Without}

-- The heads `xs` from `h` on, where `p` is the head before.
abbrev pub Queue : Cache → HeadPtr → HeadPtr → List HeadPtr → Type 0
Queue s p h [] = h ≡ 0
Queue s p h (x ∷ xs) = (h ≡ x) × (x ≢ 0) × (s.b_prev x ≡ p) × Queue s x (s.b_next x) xs

abbrev pub IsQueue : Cache → ℕ → List HeadPtr → Type 0
IsQueue s i xs = Queue s 0 (s.hash_table i) xs

abbrev pub Holds : Cache → (dev block : ℕ) → HeadPtr → Type 0
Holds s dev block x = (s.b_dev x ≡ dev) × (s.b_blocknr x ≡ block)

-- The first head of a list that holds the block, or NULL.
pub data Lookup (s : Cache) (dev block : ℕ) : List HeadPtr → HeadPtr → Type 0 where
  missing : {xs : List HeadPtr} → All (λ x. Holds s dev block x → ⊥) xs → Lookup s dev block xs 0
  hit :
      (ys : List HeadPtr) (bh : HeadPtr) (zs : List HeadPtr)
      → bh ≢ 0
      → Holds s dev block bh
      → All (λ x. Holds s dev block x → ⊥) ys
      → Lookup s dev block (ys ++ bh ∷ zs) bh

Lookup-cons :
    {s : Cache} {dev block : ℕ} {xs : List HeadPtr} {b : HeadPtr} (x : HeadPtr)
    → (Holds s dev block x → ⊥)
    → Lookup s dev block xs b
    → Lookup s dev block (x ∷ xs) b
Lookup-cons x nope (missing all) = missing (nope, all)
Lookup-cons x nope (hit ys bh zs nz h all) = hit (x ∷ ys) bh zs nz h (nope, all)

find_from-Lookup :
    (fuel dev block : ℕ) (s : Cache) (p h : HeadPtr) (xs : List HeadPtr)
    → Queue s p h xs
    → length xs < fuel
    → (b : HeadPtr) × (find_from fuel dev block h s ≡ some b) × Lookup s dev block xs b
unfolding find_from
find_from-Lookup zero dev block s p h xs q lt = absurd (omega arith)
find_from-Lookup (suc fuel) dev block s p h [] q lt = (0, ground arith, missing tt)
find_from-Lookup (suc fuel) dev block s p h (x ∷ xs) q lt =
    elim (Bool-cases (s.b_dev x == dev && s.b_blocknr x == block)) [
      | inl e ↦ (x, ground (arith, q.0, q.1), hit [] x xs q.1 (ground arith, ground arith) tt)
      | inr e ↦
          let (b, f, l) = find_from-Lookup fuel dev block s x (s.b_next x) xs q.3 (omega arith) in
          (b, ground (arith, q.0, q.1, f), Lookup-cons x (λ h. ground (arith, h)) l)
    ]

-- With fuel beyond the length of the block's queue, `find_buffer` gives the first head of the queue
-- that holds the block, and NULL if there is none.
pub find_buffer-Lookup :
    (fuel dev block : ℕ) (s : Cache) (xs : List HeadPtr)
    → IsQueue s (hashfn dev block) xs
    → length xs < fuel
    → (b : HeadPtr) × (find_buffer fuel dev block s ≡ some b) × Lookup s dev block xs b
unfolding find_buffer
find_buffer-Lookup fuel dev block s xs q lt = find_from-Lookup fuel dev block s 0 _ xs q lt

-- Stores to heads outside a queue leave it.
pub Queue-same :
    (s t : Cache) (p h : HeadPtr) (xs : List HeadPtr)
    → All (λ x. (t.b_prev x ≡ s.b_prev x) × (t.b_next x ≡ s.b_next x)) xs
    → Queue s p h xs
    → Queue t p h xs
Queue-same s t p h [] same q = q
Queue-same s t p h (x ∷ xs) same q = (
  q.0,
  q.1,
  same.0.0 ∙ q.2,
  subst (λ n. Queue t x n xs) (sym same.0.1) (Queue-same s t x (s.b_next x) xs same.1 q.3),
)

All-map :
    {P Q : HeadPtr → Type 0} (xs : List HeadPtr) → ((x : HeadPtr) → P x → Q x) → All P xs → All Q xs
All-map [] f all = tt
All-map (x ∷ xs) f all = (f x all.0, All-map xs f all.1)

-- The links of `bh` to the heads beside it.
pub record Between (s : Cache) (bh : HeadPtr) : Type 0 where
  pub back : (s.b_prev bh ≡ 0) ⊎ (s.b_next (s.b_prev bh) ≡ bh)
  pub ahead : (s.b_next bh ≡ 0) ⊎ (s.b_prev (s.b_next bh) ≡ bh)

back_of :
    (s : Cache) (bh p h : HeadPtr) (ys zs : List HeadPtr)
    → Queue s p h (ys ++ bh ∷ zs)
    → ((s.b_prev bh ≡ p) × (h ≡ bh)) ⊎ (s.b_next (s.b_prev bh) ≡ bh)
back_of s bh p h [] zs q = inl (q.2, q.0)
back_of s bh p h (y ∷ ys) zs q = elim (back_of s bh y (s.b_next y) ys zs q.3) [
  | inl (e, n) ↦ inr (ap s.b_next e ∙ n)
  | inr n ↦ inr n
]

ahead_of :
    (s : Cache) (bh p h : HeadPtr) (ys zs : List HeadPtr)
    → Queue s p h (ys ++ bh ∷ zs)
    → (s.b_next bh ≡ 0) ⊎ (s.b_prev (s.b_next bh) ≡ bh)
ahead_of s bh p h [] [] q = inl q.3
ahead_of s bh p h [] (z ∷ zs) q = inr (ap s.b_prev q.3.0 ∙ q.3.2)
ahead_of s bh p h (y ∷ ys) zs q = ahead_of s bh y (s.b_next y) ys zs q.3

pub Queue-Between :
    (s : Cache) (bh h : HeadPtr) (ys zs : List HeadPtr) → Queue s 0 h (ys ++ bh ∷ zs) → Between s bh
Queue-Between s bh h ys zs q = record {
  back = elim (back_of s bh 0 h ys zs q) [ inl (e, n) ↦ inl e | inr n ↦ inr n ];
  ahead = ahead_of s bh 0 h ys zs q;
}

pub head-ne :
    (s : Cache) (bh p h : HeadPtr) (xs : List HeadPtr)
    → bh ≢ 0
    → Without bh xs
    → Queue s p h xs
    → h ≢ bh
head-ne s bh p h [] nz out q e = nz (sym e ∙ q)
head-ne s bh p h (x ∷ xs) nz out q e = out.0 (sym q.0 ∙ e)

-- The removal of `bh` keeps a link between two other heads.
module _ (s : Cache) (bh : HeadPtr) (nz : bh ≢ 0) (btw : Between s bh) where
  pub prev-kept : (y p : HeadPtr) → s.b_prev y ≡ p → p ≢ bh → (remove_from_hash bh s).b_prev y ≡ p
  unfolding remove_from_hash
  prev-kept y p e ne = elim btw.ahead [
    | inl z ↦ ground (arith, z, e)
    | inr k ↦ ground (arith, k, e)
  ]

  pub next-kept : (y n : HeadPtr) → s.b_next y ≡ n → n ≢ bh → (remove_from_hash bh s).b_next y ≡ n
  unfolding remove_from_hash
  next-kept y n e ne = elim btw.back [ inl z ↦ ground (arith, z, e) | inr k ↦ ground (arith, k, e) ]

  pub Queue-kept :
      (p h : HeadPtr) (xs : List HeadPtr)
      → p ≢ bh
      → Without bh xs
      → Queue s p h xs
      → Queue (remove_from_hash bh s) p h xs
  Queue-kept p h [] np out q = q
  Queue-kept p h (x ∷ xs) np out q =
      let e = next-kept x (s.b_next x) refl (head-ne s bh x _ xs nz out.1 q.3) in
      (
        q.0,
        q.1,
        prev-kept x p q.2 np,
        subst (λ n. Queue (remove_from_hash bh s) x n xs) (sym e)
            (Queue-kept x (s.b_next x) xs out.0 out.1 q.3),
      )
