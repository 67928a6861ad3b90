-- ===== src/Buffer/Reuse.antt =====
-- What `getblk` of fs/buffer.c returns, and the cache that it leaves.
use mockos.Prelude.{
  ℕ, ◌^◌, ◌<◌, ◌≡◌, ◌≢◌, refl, sym, subst, arith, List, [], ◌∷◌, ◌++◌, All, inl, inr, update,
  Distinct, some,
}
use mockos.Buffer.{
  HeadPtr, Cache, slot, hashfn, remove_from_hash, remove_from_free, remove_from_queues,
  insert_into_hash, insert_into_free, insert_into_queues,
}
use mockos.Buffer.Ring.{IsRing, In, Without, insert_into_free-IsRing}
use mockos.Buffer.Hash.{Holds}
use mockos.Buffer.Hashed.{IsHashed, erase, erase-Without, Distinct-erase}
use mockos.Buffer.Rehash.{
  Stands, queued, loose, push, remove_from_hash-IsHashed, insert_into_hash-IsHashed,
}
use mockos.Buffer.Frames.{
  IsRing-same, remove_from_hash-IsRing, IsRing-prev, remove_from_free-erase, IsHashed-same,
  set_block-IsHashed, remove_from_free-IsHashed, insert_into_free-IsHashed, insert_into_hash-IsRing,
}
use mockos.Buffer.Getblk.{got, set_block, reuse}

-- The cache between two calls: the free list is a ring of the heads `f` and `xs`, and the hash
-- queues are `q`; each head stands in the queue of its block, or has no device and stands in none.
pub record IsCache (s : Cache) (f : HeadPtr) (xs : List HeadPtr) (q : ℕ → List HeadPtr)
    : Type 0 where
  pub ring : IsRing s f xs
  pub distinct : Distinct (f ∷ xs)
  pub no_null : All (λ x. x ≢ 0) (f ∷ xs)
  pub hashed : IsHashed s q
  pub placed : All (Stands s q) (f ∷ xs)

-- The head `bh` of the ring was taken for the block: it is in use once, clean and not up to date,
-- it is the last of the ring and the first of the block's queue; the others keep their order.
pub record Reused (s : Cache) (ring : List HeadPtr) (q : ℕ → List HeadPtr) (dev block bh : ℕ)
    (t : Cache) : Type 0 where
  pub in_use : t.b_count bh ≡ 1
  pub clean : t.b_dirt bh ≡ 0
  pub not_read : t.b_uptodate bh ≡ 0
  pub holds : Holds t dev block bh
  pub first : HeadPtr
  pub others : List HeadPtr
  pub order : erase bh ring ≡ first ∷ others
  pub free : IsRing t first (others ++ bh ∷ [])
  pub hashed : IsHashed t (push bh (hashfn dev block) (λ i. erase bh (q i)))

abbrev pub fresh : HeadPtr → Cache → Cache
fresh bh s = record s {
  b_count = update s.b_count bh 1;
  b_dirt = update s.b_dirt bh 0;
  b_uptodate = update s.b_uptodate bh 0;
}

-- the cache without `bh` in its lists
abbrev pub taken_out : HeadPtr → Cache → Cache
taken_out bh s = remove_from_free bh (remove_from_hash bh (fresh bh s))

abbrev pub put_back : (dev block : ℕ) → HeadPtr → Cache → Cache
put_back dev block bh s = insert_into_queues bh (set_block bh dev block (taken_out bh s))

pub In-All : (P : HeadPtr → Type 0) {b : HeadPtr} (xs : List HeadPtr) → In b xs → All P xs → P b
In-All P [] i all = absurd i
In-All P (x ∷ xs) (inl e) all = subst P (sym e) all.0
In-All P (x ∷ xs) (inr i) all = In-All P xs i all.1

same_prev :
    (s : Cache) (bh : HeadPtr)
    → (remove_from_hash bh (fresh bh s)).b_prev_free bh ≡ s.b_prev_free bh
unfolding remove_from_hash
same_prev s bh = refl

removes :
    (s : Cache) (bh : HeadPtr)
    → s.b_prev_free bh ≢ 0
    → remove_from_queues bh (fresh bh s) ≡ some (taken_out bh s)
unfolding remove_from_queues
removes s bh nz = ground (arith, same_prev s bh)

reuse-got :
    (s : Cache) (dev block bh : ℕ)
    → s.b_prev_free bh ≢ 0
    → reuse dev block bh s ≡ got bh (put_back dev block bh s)
unfolding reuse
reuse-got s dev block bh nz = rw (removes s bh nz, reuse) refl

fresh-Stands :
    (s : Cache) (q : ℕ → List HeadPtr) (bh : HeadPtr) → Stands s q bh → Stands (fresh bh s) q bh
fresh-Stands s q bh (queued i) = queued i
fresh-Stands s q bh (loose d p n) = loose d p n

module _ (s : Cache) (f z : HeadPtr) (zs : List HeadPtr) (q : ℕ → List HeadPtr) (bh dev block : ℕ)
    (c : IsCache s f (z ∷ zs) q) (mem : In bh (f ∷ z ∷ zs)) (device : dev ≢ 0)
    (short : dev < 2 ^ 16) where
  bh_exists : bh ≢ 0
  bh_exists = In-All (λ x. x ≢ 0) (f ∷ z ∷ zs) mem c.no_null

  erased : (i : ℕ) → Without bh (erase bh (q i))
  erased i = erase-Without bh (q i) (c.hashed.distinct i)

  pub out-IsHashed : IsHashed (set_block bh dev block (taken_out bh s)) (λ i. erase bh (q i))
  out-IsHashed =
      set_block-IsHashed _ (λ i. erase bh (q i)) bh dev block erased
        (remove_from_free-IsHashed _ (λ i. erase bh (q i)) bh
          (remove_from_hash-IsHashed (fresh bh s) q bh bh_exists
            (IsHashed-same s (fresh bh s) q refl refl refl (λ i all. all) c.hashed)
            (fresh-Stands s q bh (In-All (Stands s q) (f ∷ z ∷ zs) mem c.placed))))

  block_slot : slot (set_block bh dev block (taken_out bh s)) bh ≡ hashfn dev block
  block_slot = ground (arith, short)

  back-IsHashed :
      IsHashed (put_back dev block bh s) (push bh (hashfn dev block) (λ i. erase bh (q i)))
  unfolding insert_into_queues insert_into_free
  back-IsHashed =
      subst (λ k. IsHashed (put_back dev block bh s) (push bh k (λ i. erase bh (q i)))) block_slot
        (insert_into_hash-IsHashed _ (λ i. erase bh (q i)) bh bh_exists
          (ground (arith, short, device))
          (insert_into_free-IsHashed _ (λ i. erase bh (q i)) bh out-IsHashed) erased)

  back-IsRing :
      (g : HeadPtr) (ws : List HeadPtr)
      → erase bh (f ∷ z ∷ zs) ≡ g ∷ ws
      → IsRing (taken_out bh s) g ws
      → IsRing (put_back dev block bh s) g (ws ++ bh ∷ [])
  unfolding insert_into_queues
  back-IsRing g ws order r =
      let out = subst (Without bh) order (erase-Without bh (f ∷ z ∷ zs) c.distinct) in
      let apart = subst Distinct order (Distinct-erase bh (f ∷ z ∷ zs) c.distinct) in
      insert_into_hash-IsRing _ bh g (ws ++ bh ∷ []) (
        insert_into_free-IsRing (set_block bh dev block (taken_out bh s)) bh g ws out.0 out.1
          apart.0 (IsRing-same (taken_out bh s) _ g ws refl refl refl r))

  back_fields :
      ((put_back dev block bh s).b_count bh ≡ 1)
      × ((put_back dev block bh s).b_dirt bh ≡ 0)
      × ((put_back dev block bh s).b_uptodate bh ≡ 0)
      × Holds (put_back dev block bh s) dev block bh
  unfolding insert_into_queues insert_into_hash insert_into_free remove_from_free remove_from_hash
  back_fields = ground (arith, short)

  pub reuse-put_back : reuse dev block bh s ≡ got bh (put_back dev block bh s)
  reuse-put_back = reuse-got s dev block bh (IsRing-prev s bh f (z ∷ zs) c.no_null mem c.ring)

  pub put_back-Reused : Reused s (f ∷ z ∷ zs) q dev block bh (put_back dev block bh s)
  put_back-Reused =
      let start = IsRing-same s (fresh bh s) f (z ∷ zs) refl refl refl c.ring in
      let (g, ws, order, r) =
        remove_from_free-erase (remove_from_hash bh (fresh bh s)) bh f z zs c.distinct mem
          (remove_from_hash-IsRing (fresh bh s) bh f (z ∷ zs) start) in
      let (count, dirt, uptodate, holds) = back_fields in
      record {
        in_use = count;
        clean = dirt;
        not_read = uptodate;
        holds = holds;
        first = g;
        others = ws;
        order = order;
        free = back-IsRing g ws order r;
        hashed = back-IsHashed;
      }

  -- In a cache of two heads or more, any head of the free list can be taken for a block of a device
  -- other than 0, below 2 ^ 16: there is no panic, and the lists are in order afterwards.
  pub reuse-Reused :
      (t : Cache) × (reuse dev block bh s ≡ got bh t) × Reused s (f ∷ z ∷ zs) q dev block bh t
  reuse-Reused = (put_back dev block bh s, reuse-put_back, put_back-Reused)
