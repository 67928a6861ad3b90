-- ===== src/Buffer/Placed.antt =====
-- `getblk` of fs/buffer.c keeps every head where its block belongs.
use mockos.Prelude.{
  ℕ, ◌^◌, ◌<◌, ◌≡◌, ◌≢◌, inl, refl, sym, subst, ◌∙◌, arith, ◌==◌, true, List, [], ◌∷◌, ◌++◌, All,
  Distinct, eq→==,
}
use mockos.Buffer.{
  HeadPtr, Cache, slot, hashfn, remove_from_hash, insert_into_hash, insert_into_free,
  remove_from_free, insert_into_queues,
}
use mockos.Buffer.Ring.{In, Without}
use mockos.Buffer.Queues.{inserted_prev, inserted_next}
use mockos.Buffer.Hashed.{erase, erase-Without, All-erase, Distinct-erase}
use mockos.Buffer.Rehash.{Stands, queued, loose, push}
use mockos.Buffer.Getblk.{got, set_block, reuse}
use mockos.Buffer.Reuse.{
  IsCache, In-All, fresh, taken_out, put_back, out-IsHashed, reuse-put_back, put_back-Reused,
}
use mockos.Buffer.Beside.{
  In-erase, In-push, Distinct-snoc, All-snoc, head-dev, next-dev, prev-dev, removed_prev,
  removed_next,
}

slot_kept :
    (s : Cache) (dev block bh x : ℕ)
    → x ≢ bh
    → (slot (put_back dev block bh s) x ≡ slot s x)
      × ((put_back dev block bh s).b_dev x ≡ s.b_dev x)
unfolding insert_into_queues insert_into_hash insert_into_free remove_from_free remove_from_hash
slot_kept s dev block bh x ne = ground (arith, ne)

module _ (s : Cache) (f z : HeadPtr) (zs : List HeadPtr) (q : ℕ → List HeadPtr) (bh dev block : ℕ)
    (c : IsCache s f (z ∷ zs) q) (mem : In bh (f ∷ z ∷ zs)) (device : dev ≢ 0)
    (short : dev < 2 ^ 16) where
  -- A head without a device is not the first of any queue.
  not_first :
      (x : HeadPtr)
      → x ≢ bh
      → x ≢ 0
      → s.b_dev x ≡ 0
      → x
        ≢ (set_block bh dev block (taken_out bh s)).hash_table
            (slot (set_block bh dev block (taken_out bh s)) bh)
  unfolding remove_from_free remove_from_hash
  not_first x ne nz d e =
      let h = out-IsHashed s f z zs q bh dev block c mem device short in
      let k = slot (set_block bh dev block (taken_out bh s)) bh in
      head-dev (set_block bh dev block (taken_out bh s)) k _ (erase bh (q k)) (h.queue k)
        (h.in_place k) (λ w. nz (e ∙ w))
        (subst (λ y. (set_block bh dev block (taken_out bh s)).b_dev y ≡ 0) e
          (ground (arith, d, ne)))

  stands : Stands s q bh
  stands = In-All (Stands s q) (f ∷ z ∷ zs) mem c.placed

  loose_links :
      (x : HeadPtr)
      → x ≢ bh
      → x ≢ 0
      → s.b_dev x ≡ 0
      → ((put_back dev block bh s).b_prev x ≡ s.b_prev x)
        × ((put_back dev block bh s).b_next x ≡ s.b_next x)
  unfolding insert_into_queues insert_into_free remove_from_free
  loose_links x ne nz d = (
    inserted_prev (insert_into_free bh (set_block bh dev block (taken_out bh s))) bh x ne
          (not_first x ne nz d)
        ∙ removed_prev (fresh bh s) bh x d (next-dev s q bh c.hashed stands),
    inserted_next (insert_into_free bh (set_block bh dev block (taken_out bh s))) bh x ne
        ∙ removed_next (fresh bh s) bh x d (prev-dev s q bh c.hashed stands),
  )

  placed_other :
      (x : HeadPtr)
      → x ≢ bh
      → x ≢ 0
      → Stands s q x
      → Stands (put_back dev block bh s) (push bh (hashfn dev block) (λ i. erase bh (q i))) x
  placed_other x ne nz (queued i) =
      let k = slot s x in
      queued (
        subst (λ j. In x (push bh (hashfn dev block) (λ i. erase bh (q i)) j))
          (sym (slot_kept s dev block bh x ne).0)
          (In-push bh x (hashfn dev block) k (λ i. erase bh (q i)) (In-erase bh x (q k) ne i)))
  placed_other x ne nz (loose d p n) =
      let (a, b) = loose_links x ne nz d in
      loose ((slot_kept s dev block bh x ne).1 ∙ d) (a ∙ p) (b ∙ n)

  placed_self :
      Stands (put_back dev block bh s) (push bh (hashfn dev block) (λ i. erase bh (q i))) bh
  unfolding insert_into_queues insert_into_hash insert_into_free remove_from_free remove_from_hash
  placed_self =
      let at : slot (put_back dev block bh s) bh ≡ hashfn dev block = ground (arith, short) in
      let same : (hashfn dev block == hashfn dev block) ≡ true = eq→== _ _ refl in
      queued (
        subst (λ j. In bh (push bh (hashfn dev block) (λ i. erase bh (q i)) j)) (sym at)
          (rw same (inl refl)))

  placed-All :
      (ws : List HeadPtr)
      → Without bh ws
      → All (λ x. x ≢ 0) ws
      → All (Stands s q) ws
      → All
          (Stands (put_back dev block bh s) (push bh (hashfn dev block) (λ i. erase bh (q i))))
          (ws ++ bh ∷ [])
  placed-All [] out nz all = (placed_self, tt)
  placed-All (w ∷ ws) out nz all = (placed_other w out.0 nz.0 all.0, placed-All ws out.1 nz.1 all.1)

  -- When `getblk` takes a head of the free list for a block of a device other than 0, below 2 ^
  -- 16, in a cache in order with two heads or more, there is no panic and the cache is in order
  -- again, with that head last in the free list and first in the queue of the block.
  pub reuse-IsCache :
      (t : Cache) × (g : HeadPtr) × (ws : List HeadPtr) × (reuse dev block bh s ≡ got bh t)
      × (erase bh (f ∷ z ∷ zs) ≡ g ∷ ws)
      × IsCache t g (ws ++ bh ∷ []) (push bh (hashfn dev block) (λ i. erase bh (q i)))
  reuse-IsCache =
      let e = reuse-put_back s f z zs q bh dev block c mem device short in
      let r = put_back-Reused s f z zs q bh dev block c mem device short in
      let t = put_back dev block bh s in
      let out = erase-Without bh (f ∷ z ∷ zs) c.distinct in
      let nz = All-erase (λ x. x ≢ 0) bh (f ∷ z ∷ zs) c.no_null in
      let all =
        placed-All (erase bh (f ∷ z ∷ zs)) out nz
          (All-erase (Stands s q) bh (f ∷ z ∷ zs) c.placed) in
      (
        t,
        r.first,
        r.others,
        e,
        r.order,
        record {
          ring = r.free;
          distinct =
              subst (λ l. Distinct (l ++ bh ∷ [])) r.order
                (Distinct-snoc bh (erase bh (f ∷ z ∷ zs))
                  (Distinct-erase bh (f ∷ z ∷ zs) c.distinct) out);
          no_null =
              subst (λ l. All (λ x. x ≢ 0) (l ++ bh ∷ [])) r.order
                (All-snoc (λ x. x ≢ 0) bh (erase bh (f ∷ z ∷ zs)) nz
                  (In-All (λ x. x ≢ 0) (f ∷ z ∷ zs) mem c.no_null));
          hashed = r.hashed;
          placed =
              subst
                (λ l.
                  All (Stands t (push bh (hashfn dev block) (λ i. erase bh (q i)))) (l ++ bh ∷ []))
                r.order all;
        },
      )
