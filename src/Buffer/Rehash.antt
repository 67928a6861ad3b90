-- ===== src/Buffer/Rehash.antt =====
-- A head leaves its hash queue and enters another: fs/buffer.c keeps all queues in order.
use mockos.Prelude.{
  ℕ, ◌≡◌, ◌≢◌, ◌⊎◌, sym, ap, subst, ◌∙◌, arith, ◌==◌, List, [], ◌∷◌, All, if◌then◌else◌, inl, inr,
  Bool-cases, ==→eq, Distinct,
}
use mockos.Buffer.{HeadPtr, Cache, slot, remove_from_hash, insert_into_hash}
use mockos.Buffer.Ring.{Without, In}
use mockos.Buffer.Hash.{Queue, IsQueue, Between, Queue-Between}
use mockos.Buffer.Queues.{
  remove_from_hash-IsQueue, remove_from_hash_other, remove_from_hash_loose,
  insert_into_hash-IsQueue, insert_into_hash_other,
}
use mockos.Buffer.Hashed.{
  InPlace, IsHashed, erase, erase-same, All-erase, Distinct-erase, Split, In-Split,
}

-- Where a head stands: in the queue of its slot, or, without a device, in none.
pub data Stands (s : Cache) (q : ℕ → List HeadPtr) (bh : HeadPtr) : Type 0 where
  queued : In bh (q (slot s bh)) → Stands s q bh
  loose : s.b_dev bh ≡ 0 → s.b_prev bh ≡ 0 → s.b_next bh ≡ 0 → Stands s q bh

-- A head is in no queue but that of its slot.
not_elsewhere :
    (s : Cache) (bh : HeadPtr) (i : ℕ) (xs : List HeadPtr)
    → All (InPlace s i) xs
    → (i ≢ slot s bh) ⊎ (s.b_dev bh ≡ 0)
    → Without bh xs
not_elsewhere s bh i [] all h = tt
not_elsewhere s bh i (x ∷ xs) all h = (differs h, not_elsewhere s bh i xs all.1 h)
  where
    differs : (i ≢ slot s bh) ⊎ (s.b_dev bh ≡ 0) → x ≢ bh
    differs (inl ne) e = ne (sym all.0.0 ∙ ap (slot s) e)
    differs (inr z) e = all.0.1 (ap s.b_dev e ∙ z)

removed-InPlace :
    (s : Cache) (bh : HeadPtr) (i : ℕ) (xs : List HeadPtr)
    → All (InPlace s i) xs
    → All (InPlace (remove_from_hash bh s) i) xs
unfolding remove_from_hash
removed-InPlace s bh i xs all = all

module _ (s : Cache) (q : ℕ → List HeadPtr) (bh : HeadPtr) (nz : bh ≢ 0) (h : IsHashed s q) where
  IsQueue-queued :
      Split bh (q (slot s bh))
      → IsQueue (remove_from_hash bh s) (slot s bh) (erase bh (q (slot s bh)))
  IsQueue-queued r = subst (IsQueue (remove_from_hash bh s) (slot s bh)) (sym r.erased) (
      remove_from_hash-IsQueue s bh r.before r.behind nz r.without
        (subst (IsQueue s (slot s bh)) r.whole (h.queue (slot s bh))))

  Between-queued : Split bh (q (slot s bh)) → Between s bh
  Between-queued r =
      Queue-Between s bh _ r.before r.behind
        (subst (IsQueue s (slot s bh)) r.whole (h.queue (slot s bh)))

  IsQueue-elsewhere :
      (i : ℕ) → Between s bh → i ≢ slot s bh → IsQueue (remove_from_hash bh s) i (erase bh (q i))
  IsQueue-elsewhere i btw ne =
      let out = not_elsewhere s bh i (q i) (h.in_place i) (inl ne) in
      subst (IsQueue (remove_from_hash bh s) i) (sym (erase-same bh (q i) out))
        (remove_from_hash_other s bh i (q i) nz btw ne out (h.queue i))

  IsQueue-erased : Stands s q bh → (i : ℕ) → IsQueue (remove_from_hash bh s) i (erase bh (q i))
  IsQueue-erased (queued mem) i =
      let r = In-Split bh (q (slot s bh)) mem (h.distinct (slot s bh)) in
      elim (Bool-cases (i == slot s bh)) [
        | inl e ↦
            subst (λ j. IsQueue (remove_from_hash bh s) j (erase bh (q j)))
              (sym (==→eq i (slot s bh) e)) (IsQueue-queued r)
        | inr e ↦ IsQueue-elsewhere i (Between-queued r) (λ z. ground arith)
      ]
  IsQueue-erased (loose dev p n) i =
      let out = not_elsewhere s bh i (q i) (h.in_place i) (inr dev) in
      subst (IsQueue (remove_from_hash bh s) i) (sym (erase-same bh (q i) out)) (
        remove_from_hash_loose s bh i (q i) nz (record { back = inl p; ahead = inl n }) out
          (h.queue i))

  -- With all hash queues in order, the first half of `remove_from_queues` takes a head, no NULL,
  -- that stands in the queue of its slot, or without a device in none, out of that queue, and all
  -- queues are in order again.
  pub remove_from_hash-IsHashed :
      Stands s q bh → IsHashed (remove_from_hash bh s) (λ i. erase bh (q i))
  remove_from_hash-IsHashed st = record {
    queue = IsQueue-erased st;
    in_place = λ i.
        All-erase (InPlace (remove_from_hash bh s) i) bh (q i)
          (removed-InPlace s bh i (q i) (h.in_place i));
    distinct = λ i. Distinct-erase bh (q i) (h.distinct i);
  }

-- The queues with `bh` in front of that of the slot `i`.
abbrev pub push : HeadPtr → ℕ → (ℕ → List HeadPtr) → ℕ → List HeadPtr
push bh i q j = if j == i then bh ∷ q j else q j

inserted-InPlace :
    (s : Cache) (bh : HeadPtr) (i : ℕ) (xs : List HeadPtr)
    → All (InPlace s i) xs
    → All (InPlace (insert_into_hash bh s) i) xs
unfolding insert_into_hash
inserted-InPlace s bh i [] all = tt
inserted-InPlace s bh i (x ∷ xs) all = (ground (arith, all.0), inserted-InPlace s bh i xs all.1)

inserted_slot_same : (s : Cache) (bh x : HeadPtr) → slot (insert_into_hash bh s) x ≡ slot s x
unfolding insert_into_hash
inserted_slot_same s bh x = ground arith

inserted_dev : (s : Cache) (bh x : HeadPtr) → (insert_into_hash bh s).b_dev x ≡ s.b_dev x
unfolding insert_into_hash
inserted_dev s bh x = ground arith

Without-null : (s : Cache) (p h : HeadPtr) (xs : List HeadPtr) → Queue s p h xs → Without 0 xs
Without-null s p h [] qu = tt
Without-null s p h (x ∷ xs) qu = (qu.1, Without-null s x (s.b_next x) xs qu.3)

-- The head of a queue stands in no other.
head_elsewhere :
    (s : Cache) (i j : ℕ) (xs ys : List HeadPtr)
    → j ≢ i
    → IsQueue s i xs
    → All (InPlace s i) xs
    → IsQueue s j ys
    → All (InPlace s j) ys
    → Without (s.hash_table i) ys
head_elsewhere s i j [] ys ne qx ax qy ay =
    subst (λ h. Without h ys) (sym qx) (Without-null s 0 _ ys qy)
head_elsewhere s i j (x ∷ xs) ys ne qx ax qy ay =
    subst (λ h. Without h ys) (sym qx.0) (not_elsewhere s x j ys ay (inl (λ e. ne (e ∙ ax.0.0))))

module _ (s : Cache) (q : ℕ → List HeadPtr) (bh : HeadPtr) (nz : bh ≢ 0) (dev : s.b_dev bh ≢ 0)
    (h : IsHashed s q) (out : (i : ℕ) → Without bh (q i)) where
  pushed-IsQueue : (j : ℕ) → IsQueue (insert_into_hash bh s) j (push bh (slot s bh) q j)
  pushed-IsQueue j = elim (Bool-cases (j == slot s bh)) [
    | inl e ↦ rw e (
        subst (λ k. IsQueue (insert_into_hash bh s) k (bh ∷ q k)) (sym (==→eq j (slot s bh) e))
          (insert_into_hash-IsQueue s bh (q (slot s bh)) nz dev (out (slot s bh))
            (h.distinct (slot s bh)) (h.queue (slot s bh))))
    | inr e ↦
        let ne : j ≢ slot s bh = λ z. ground arith in
        rw e (
          insert_into_hash_other s bh j (q j) ne (out j)
            (head_elsewhere s (slot s bh) j (q (slot s bh)) (q j) ne (h.queue (slot s bh))
              (h.in_place (slot s bh)) (h.queue j) (h.in_place j))
            (h.queue j))
  ]

  pushed-InPlace : (j : ℕ) → All (InPlace (insert_into_hash bh s) j) (push bh (slot s bh) q j)
  pushed-InPlace j = elim (Bool-cases (j == slot s bh)) [
    | inl e ↦ rw e (
      (
        inserted_slot_same s bh bh ∙ sym (==→eq j (slot s bh) e),
        λ z. dev (sym (inserted_dev s bh bh) ∙ z),
      ),
      inserted-InPlace s bh j (q j) (h.in_place j),
    )
    | inr e ↦ rw e (inserted-InPlace s bh j (q j) (h.in_place j))
  ]

  pushed-Distinct : (j : ℕ) → Distinct (push bh (slot s bh) q j)
  pushed-Distinct j = elim (Bool-cases (j == slot s bh)) [
    | inl e ↦ rw e (out j, h.distinct j)
    | inr e ↦ rw e (h.distinct j)
  ]

  -- With all hash queues in order, the second half of `insert_into_queues` puts a head, no NULL,
  -- with a device and in no queue, in front of the queue of its slot, and all queues are in order
  -- again.
  pub insert_into_hash-IsHashed : IsHashed (insert_into_hash bh s) (push bh (slot s bh) q)
  insert_into_hash-IsHashed = record {
    queue = pushed-IsQueue;
    in_place = pushed-InPlace;
    distinct = pushed-Distinct;
  }
