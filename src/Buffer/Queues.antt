-- ===== src/Buffer/Queues.antt =====
-- `remove_from_hash` and `insert_into_hash` of fs/buffer.c on whole queues.
use mockos.Prelude.{
  ℕ, ◌≡◌, ◌≢◌, refl, sym, subst, ◌∙◌, arith, ◌==◌, List, [], ◌∷◌, ◌++◌, All, if◌then◌else◌, eq→==,
  Distinct,
}
use mockos.Buffer.{HeadPtr, Cache, slot, remove_from_hash, insert_into_hash}
use mockos.Buffer.Ring.{Without}
use mockos.Buffer.Hash.{
  Queue, IsQueue, Between, Queue-Between, Queue-kept, Queue-same, prev-kept, next-kept, head-ne,
}

-- the head of a queue from `h` on, without `bh`
abbrev head_without : Cache → HeadPtr → HeadPtr → HeadPtr
head_without s bh h = if h == bh then s.b_next bh else h

module _ (s : Cache) (bh : HeadPtr) (nz : bh ≢ 0) (btw : Between s bh) where
  prev_ahead :
      (p z : HeadPtr)
      → s.b_prev bh ≡ p
      → s.b_next bh ≡ z
      → z ≢ 0
      → (remove_from_hash bh s).b_prev z ≡ p
  unfolding remove_from_hash
  prev_ahead p z a b zz = ground (arith, a, b)

  next_back :
      (y : HeadPtr) → s.b_prev bh ≡ y → y ≢ 0 → (remove_from_hash bh s).b_next y ≡ s.b_next bh
  unfolding remove_from_hash
  next_back y a zz = ground (arith, a)

  Queue-removed :
      (p h : HeadPtr) (ys zs : List HeadPtr)
      → p ≢ bh
      → Without bh (ys ++ zs)
      → Queue s p h (ys ++ bh ∷ zs)
      → Queue (remove_from_hash bh s) p (head_without s bh h) (ys ++ zs)
  Queue-removed p h [] [] np out q = rw (eq→== h bh q.0) q.3
  Queue-removed p h [] (z ∷ zs) np out q = rw (eq→== h bh q.0) (
    q.3.0,
    q.3.1,
    prev_ahead p z q.2 q.3.0 q.3.1,
    subst (λ n. Queue (remove_from_hash bh s) z n zs)
        (sym (next-kept s bh nz btw z _ refl (head-ne s bh z _ zs nz out.1 q.3.3)))
        (Queue-kept s bh nz btw z _ zs out.0 out.1 q.3.3),
  )
  Queue-removed p h (y ∷ []) zs np out q =
      let first : head_without s bh h ≡ y = ground (arith, q.0, out.0) in
      let step : head_without s bh (s.b_next y) ≡ s.b_next bh = rw (eq→== _ bh q.3.0) refl in
      (
        first,
        q.1,
        prev-kept s bh nz btw y p q.2 np,
        subst (λ n. Queue (remove_from_hash bh s) y n zs) (step ∙ sym (next_back y q.3.2 q.1))
            (Queue-removed y (s.b_next y) [] zs out.0 out.1 q.3),
      )
  Queue-removed p h (y ∷ x ∷ ys) zs np out q =
      let first : head_without s bh h ≡ y = ground (arith, q.0, out.0) in
      let other : s.b_next y ≢ bh = λ e. out.1.0 (sym q.3.0 ∙ e) in
      let step : head_without s bh (s.b_next y) ≡ s.b_next y = ground (arith, other) in
      (
        first,
        q.1,
        prev-kept s bh nz btw y p q.2 np,
        subst (λ n. Queue (remove_from_hash bh s) y n (x ∷ ys ++ zs))
            (step ∙ sym (next-kept s bh nz btw y _ refl other))
            (Queue-removed y (s.b_next y) (x ∷ ys) zs out.0 out.1 q.3),
      )

  slot_removed :
      (remove_from_hash bh s).hash_table (slot s bh) ≡ head_without s bh (s.hash_table (slot s bh))
  unfolding remove_from_hash
  slot_removed = ground arith

  slot_other : (i : ℕ) → i ≢ slot s bh → (remove_from_hash bh s).hash_table i ≡ s.hash_table i
  unfolding remove_from_hash
  slot_other i ne = ground arith

-- A head leaves its queue, from any place of it.
pub remove_from_hash-IsQueue :
    (s : Cache) (bh : HeadPtr) (ys zs : List HeadPtr)
    → bh ≢ 0
    → Without bh (ys ++ zs)
    → IsQueue s (slot s bh) (ys ++ bh ∷ zs)
    → IsQueue (remove_from_hash bh s) (slot s bh) (ys ++ zs)
remove_from_hash-IsQueue s bh ys zs nz out q =
    let btw = Queue-Between s bh _ ys zs q in
    subst (λ h. Queue (remove_from_hash bh s) 0 h (ys ++ zs)) (sym (slot_removed s bh nz btw))
      (Queue-removed s bh nz btw 0 _ ys zs (λ e. nz (sym e)) out q)

-- The other queues stay.
pub remove_from_hash_other :
    (s : Cache) (bh : HeadPtr) (i : ℕ) (xs : List HeadPtr)
    → bh ≢ 0
    → Between s bh
    → i ≢ slot s bh
    → Without bh xs
    → IsQueue s i xs
    → IsQueue (remove_from_hash bh s) i xs
remove_from_hash_other s bh i xs nz btw ne out q =
    subst (λ h. Queue (remove_from_hash bh s) 0 h xs) (sym (slot_other s bh nz btw i ne))
      (Queue-kept s bh nz btw 0 _ xs (λ e. nz (sym e)) out q)

unmoved :
    (s : Cache) (bh : HeadPtr) (i : ℕ)
    → s.hash_table i ≢ bh
    → (remove_from_hash bh s).hash_table i ≡ s.hash_table i
unfolding remove_from_hash
unmoved s bh i ne = ground (arith, ne)

-- A head that is in no queue leaves all of them as they are.
pub remove_from_hash_loose :
    (s : Cache) (bh : HeadPtr) (i : ℕ) (xs : List HeadPtr)
    → bh ≢ 0
    → Between s bh
    → Without bh xs
    → IsQueue s i xs
    → IsQueue (remove_from_hash bh s) i xs
remove_from_hash_loose s bh i xs nz btw out q =
    subst (λ h. Queue (remove_from_hash bh s) 0 h xs)
      (sym (unmoved s bh i (head-ne s bh 0 _ xs nz out q)))
      (Queue-kept s bh nz btw 0 _ xs (λ e. nz (sym e)) out q)

module _ (s : Cache) (bh : HeadPtr) where
  pub inserted_prev :
      (y : HeadPtr)
      → y ≢ bh
      → y ≢ s.hash_table (slot s bh)
      → (insert_into_hash bh s).b_prev y ≡ s.b_prev y
  unfolding insert_into_hash
  inserted_prev y a b = ground (arith, a, b)

  pub inserted_next : (y : HeadPtr) → y ≢ bh → (insert_into_hash bh s).b_next y ≡ s.b_next y
  unfolding insert_into_hash
  inserted_next y a = ground (arith, a)

  inserted-All :
      (xs : List HeadPtr)
      → Without bh xs
      → Without (s.hash_table (slot s bh)) xs
      → All
          (λ x.
            ((insert_into_hash bh s).b_prev x ≡ s.b_prev x)
            × ((insert_into_hash bh s).b_next x ≡ s.b_next x))
          xs
  inserted-All [] a b = tt
  inserted-All (x ∷ xs) a b =
      ((inserted_prev x a.0 b.0, inserted_next x a.0), inserted-All xs a.1 b.1)

  inserted_head :
      s.b_dev bh ≢ 0
      → bh ≢ s.hash_table (slot s bh)
      → ((insert_into_hash bh s).hash_table (slot s bh) ≡ bh)
        × ((insert_into_hash bh s).b_prev bh ≡ 0)
        × ((insert_into_hash bh s).b_next bh ≡ s.hash_table (slot s bh))
  unfolding insert_into_hash
  inserted_head dev ne = ground (arith, dev, ne)

  inserted_first :
      s.b_dev bh ≢ 0
      → s.hash_table (slot s bh) ≢ 0
      → (insert_into_hash bh s).b_prev (s.hash_table (slot s bh)) ≡ bh
  unfolding insert_into_hash
  inserted_first dev nz = ground (arith, dev, nz)

  inserted_slot : (i : ℕ) → i ≢ slot s bh → (insert_into_hash bh s).hash_table i ≡ s.hash_table i
  unfolding insert_into_hash
  inserted_slot i ne = ground (arith, ne)

-- A head with a device becomes the first of its queue.
pub insert_into_hash-IsQueue :
    (s : Cache) (bh : HeadPtr) (xs : List HeadPtr)
    → bh ≢ 0
    → s.b_dev bh ≢ 0
    → Without bh xs
    → Distinct xs
    → IsQueue s (slot s bh) xs
    → IsQueue (insert_into_hash bh s) (slot s bh) (bh ∷ xs)
insert_into_hash-IsQueue s bh [] nz dev out dis q =
    let (h, p, n) = inserted_head s bh dev (λ e. nz (e ∙ q)) in (h, nz, p, n ∙ q)
insert_into_hash-IsQueue s bh (x ∷ xs) nz dev out dis q =
    let (h, p, n) = inserted_head s bh dev (λ e. out.0 (sym (e ∙ q.0))) in
    let first = inserted_first s bh dev (λ z. q.1 (sym q.0 ∙ z)) in
    let same = inserted-All s bh xs out.1 (subst (λ y. Without y xs) (sym q.0) dis.0) in
    (
      h,
      nz,
      p,
      (
        n ∙ q.0,
        q.1,
        subst (λ y. (insert_into_hash bh s).b_prev y ≡ bh) q.0 first,
        subst (λ m. Queue (insert_into_hash bh s) x m xs) (sym (inserted_next s bh x out.0))
            (Queue-same s (insert_into_hash bh s) x (s.b_next x) xs same q.3),
      ),
    )

-- Queues of other slots stay, if they share no head with that of `bh`.
pub insert_into_hash_other :
    (s : Cache) (bh : HeadPtr) (i : ℕ) (xs : List HeadPtr)
    → i ≢ slot s bh
    → Without bh xs
    → Without (s.hash_table (slot s bh)) xs
    → IsQueue s i xs
    → IsQueue (insert_into_hash bh s) i xs
insert_into_hash_other s bh i xs ne out apart q =
    subst (λ h. Queue (insert_into_hash bh s) 0 h xs) (sym (inserted_slot s bh i ne))
      (Queue-same s (insert_into_hash bh s) 0 _ xs (inserted-All s bh xs out apart) q)
