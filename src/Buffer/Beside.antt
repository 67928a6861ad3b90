-- ===== src/Buffer/Beside.antt =====
-- The heads beside one in its hash queue (fs/buffer.c), and lists with one head less or more.
use mockos.Prelude.{
  ℕ, ◌≡◌, ◌≢◌, inl, inr, refl, sym, ap, subst, ◌∙◌, arith, ◌==◌, List, [], ◌∷◌, ◌++◌, All, Distinct,
  Bool-cases, ==→eq,
}
use mockos.Buffer.{HeadPtr, Cache, slot, remove_from_hash}
use mockos.Buffer.Ring.{In, Without}
use mockos.Buffer.Hash.{Queue, IsQueue}
use mockos.Buffer.Hashed.{InPlace, IsHashed, erase, In-Split}
use mockos.Buffer.Rehash.{Stands, queued, loose, push}

Queue-next :
    (s : Cache) (bh p h i : ℕ) (ys zs : List HeadPtr)
    → Queue s p h (ys ++ bh ∷ zs)
    → All (InPlace s i) (ys ++ bh ∷ zs)
    → s.b_next bh ≢ 0
    → s.b_dev (s.b_next bh) ≢ 0
Queue-next s bh p h i [] [] q all ne = absurd (ne q.3)
Queue-next s bh p h i [] (z ∷ zs) q all ne = λ e. all.1.0.1 (ap s.b_dev (sym q.3.0) ∙ e)
Queue-next s bh p h i (y ∷ ys) zs q all ne = Queue-next s bh y _ i ys zs q.3 all.1 ne

Queue-prev :
    (s : Cache) (bh p h i : ℕ) (ys zs : List HeadPtr)
    → (p ≢ 0 → s.b_dev p ≢ 0)
    → Queue s p h (ys ++ bh ∷ zs)
    → All (InPlace s i) (ys ++ bh ∷ zs)
    → s.b_prev bh ≢ 0
    → s.b_dev (s.b_prev bh) ≢ 0
Queue-prev s bh p h i [] zs dev q all ne = λ e. dev (λ z. ne (q.2 ∙ z)) (ap s.b_dev (sym q.2) ∙ e)
Queue-prev s bh p h i (y ∷ ys) zs dev q all ne =
    Queue-prev s bh y _ i ys zs (λ nz. all.0.1) q.3 all.1 ne

pub head-dev :
    (s : Cache) (i h : ℕ) (xs : List HeadPtr)
    → Queue s 0 h xs
    → All (InPlace s i) xs
    → h ≢ 0
    → s.b_dev h ≢ 0
head-dev s i h [] q all ne = absurd (ne q)
head-dev s i h (x ∷ xs) q all ne = λ e. all.0.1 (ap s.b_dev (sym q.0) ∙ e)

-- The heads beside `bh` in its queue have a device.
module _ (s : Cache) (q : ℕ → List HeadPtr) (bh : HeadPtr) (h : IsHashed s q) where
  pub next-dev : Stands s q bh → s.b_next bh ≢ 0 → s.b_dev (s.b_next bh) ≢ 0
  next-dev (loose d p n) ne = absurd (ne n)
  next-dev (queued mem) ne =
      let i = slot s bh in
      let r = In-Split bh (q i) mem (h.distinct i) in
      Queue-next s bh 0 (s.hash_table i) i r.before r.behind
        (subst (IsQueue s i) r.whole (h.queue i)) (subst (All (InPlace s i)) r.whole (h.in_place i))
        ne

  pub prev-dev : Stands s q bh → s.b_prev bh ≢ 0 → s.b_dev (s.b_prev bh) ≢ 0
  prev-dev (loose d p n) ne = absurd (ne p)
  prev-dev (queued mem) ne =
      let i = slot s bh in
      let r = In-Split bh (q i) mem (h.distinct i) in
      Queue-prev s bh 0 (s.hash_table i) i r.before r.behind (λ z. absurd (z refl))
        (subst (IsQueue s i) r.whole (h.queue i)) (subst (All (InPlace s i)) r.whole (h.in_place i))
        ne

-- The removal of `bh` leaves the links of a head without a device.
module _ (s : Cache) (bh x : HeadPtr) (dev : s.b_dev x ≡ 0) where
  pub removed_prev :
      (s.b_next bh ≢ 0 → s.b_dev (s.b_next bh) ≢ 0) → (remove_from_hash bh s).b_prev x ≡ s.b_prev x
  unfolding remove_from_hash
  removed_prev other = elim (Bool-cases (s.b_next bh == x)) [
    | inl e ↦
        let at = ==→eq _ x e in
        elim (Bool-cases (s.b_next bh == 0)) [
          | inl z ↦ rw z refl
          | inr z ↦ absurd (other (λ w. ground arith) (ap s.b_dev at ∙ dev))
        ]
    | inr e ↦ ground arith
  ]

  pub removed_next :
      (s.b_prev bh ≢ 0 → s.b_dev (s.b_prev bh) ≢ 0) → (remove_from_hash bh s).b_next x ≡ s.b_next x
  unfolding remove_from_hash
  removed_next other = elim (Bool-cases (s.b_prev bh == x)) [
    | inl e ↦
        let at = ==→eq _ x e in
        elim (Bool-cases (s.b_prev bh == 0)) [
          | inl z ↦ rw z refl
          | inr z ↦ absurd (other (λ w. ground arith) (ap s.b_dev at ∙ dev))
        ]
    | inr e ↦ ground arith
  ]

pub In-erase : (b x : HeadPtr) (xs : List HeadPtr) → x ≢ b → In x xs → In x (erase b xs)
In-erase b x [] ne i = i
In-erase b x (y ∷ ys) ne (inl p) = elim (Bool-cases (y == b)) [
  | inl e ↦ absurd (ne (p ∙ ==→eq y b e))
  | inr e ↦ rw e (inl p)
]
In-erase b x (y ∷ ys) ne (inr j) = elim (Bool-cases (y == b)) [
  | inl e ↦ rw e j
  | inr e ↦ rw e (inr (In-erase b x ys ne j))
]

pub In-push : (b x i k : ℕ) (q : ℕ → List HeadPtr) → In x (q k) → In x (push b i q k)
In-push b x i k q mem = elim (Bool-cases (k == i)) [ inl e ↦ rw e (inr mem) | inr e ↦ rw e mem ]

pub All-snoc :
    (P : HeadPtr → Type 0) (b : HeadPtr) (xs : List HeadPtr) → All P xs → P b → All P (xs ++ b ∷ [])
All-snoc P b [] all p = (p, tt)
All-snoc P b (y ∷ ys) all p = (all.0, All-snoc P b ys all.1 p)

pub Distinct-snoc :
    (b : HeadPtr) (xs : List HeadPtr) → Distinct xs → Without b xs → Distinct (xs ++ b ∷ [])
Distinct-snoc b [] d out = (tt, tt)
Distinct-snoc b (x ∷ xs) d out =
    (All-snoc (λ y. y ≢ x) b xs d.0 (λ e. out.0 (sym e)), Distinct-snoc b xs d.1 out.1)
