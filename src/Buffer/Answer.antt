-- ===== src/Buffer/Answer.antt =====
-- `getblk` of fs/buffer.c, from `repeat` to its return, a sleep or `repeat` again.
use mockos.Prelude.{
  ℕ, zero, suc, ◌+◌, ◌^◌, ◌<◌, ◌≤◌, ◌≡◌, ◌≢◌, refl, ap, subst, ◌∙◌, arith, ◌==◌, true, false, List,
  [], ◌∷◌, ◌++◌, length, All, if◌then◌else◌, inl, inr, eq→==, some,
}
use mockos.Buffer.{HeadPtr, Cache, hashfn, badness, find_from, find_buffer}
use mockos.Buffer.Ring.{In}
use mockos.Buffer.Hash.{Queue, Holds, Lookup, missing, find_buffer-Lookup}
use mockos.Buffer.Hash
use mockos.Buffer.Search.{pick, Choice, all_used, least, pick-Choice}
use mockos.Buffer.Hashed.{IsHashed, erase}
use mockos.Buffer.Rehash.{push}
use mockos.Buffer.Reuse.{IsCache, Reused, In-All, reuse-Reused}
use mockos.Buffer.Getblk.{
  got, waits_for_block, waits_for_any, repeats, set_count, recheck, get_hash_table, reuse,
  recheck_free, take_free, getblk,
}

-- No head of the block's queue holds the block, and the fuel is enough for that queue.
pub record NotCached (fuel dev block : ℕ) (s : Cache) (xs : List HeadPtr) : Type 0 where
  pub missing : All (λ x. Holds s dev block x → ⊥) xs
  pub enough : length xs < fuel

no_hit :
    {s : Cache} {dev block : ℕ} {xs : List HeadPtr} {b : HeadPtr}
    → Lookup s dev block xs b
    → All (λ x. Holds s dev block x → ⊥) xs
    → b ≡ 0
no_hit (missing all) none = refl
no_hit {s} {dev} {block} (Hash.hit ys b zs nz h before) none = absurd (clash ys none)
  where
    clash : (ys : List HeadPtr) → All (λ x. Holds s dev block x → ⊥) (ys ++ b ∷ zs) → ⊥
    clash [] none = none.0 h
    clash (y ∷ ys) none = clash ys none.1

find_buffer-null :
    {fuel dev block : ℕ} {s : Cache} {q : ℕ → List HeadPtr}
    → IsHashed s q
    → NotCached fuel dev block s (q (hashfn dev block))
    → find_buffer fuel dev block s ≡ some 0
find_buffer-null {fuel} {dev} {block} {s} {q} h n =
    let (b, e, l) =
      find_buffer-Lookup fuel dev block s (q (hashfn dev block)) (h.queue (hashfn dev block))
        n.enough in
    e ∙ ap some (no_hit l n.missing)

-- Where the block is not cached, the search of the free list decides.
module _ (fuel buffers dev block : ℕ) (s : Cache) where
  getblk-take_free :
      {q : ℕ → List HeadPtr}
      → IsHashed s q
      → NotCached fuel dev block s (q (hashfn dev block))
      → getblk fuel buffers dev block s ≡ take_free fuel buffers dev block s
  unfolding getblk get_hash_table
  getblk-take_free h n = rw (find_buffer-null h n, get_hash_table) refl

  take_free-recheck :
      (b : HeadPtr)
      → pick buffers s.free_list 0 s ≡ some b
      → b ≢ 0
      → s.b_lock b ≡ 0
      → take_free fuel buffers dev block s ≡ recheck_free fuel dev block b s
  unfolding take_free
  take_free-recheck b e nz free =
      let exists : (b == 0) ≡ false = ground (arith, nz) in
      rw (e, take_free) (rw (exists, eq→== (s.b_lock b) 0 free) refl)

  recheck_free-reuse :
      (b : HeadPtr)
      → s.b_count b ≡ 0
      → s.b_dirt b ≡ 0
      → find_buffer fuel dev block s ≡ some 0
      → recheck_free fuel dev block b s ≡ reuse dev block b s
  unfolding recheck_free
  recheck_free-reuse b count clean e =
      rw (eq→== (s.b_count b) 0 count, eq→== (s.b_dirt b) 0 clean, e, recheck_free) refl

  recheck_free-dirty : (b : HeadPtr) → s.b_dirt b ≢ 0 → recheck_free fuel dev block b s ≡ repeats s
  unfolding recheck_free
  recheck_free-dirty b dirty = ground (arith, dirty)

find_first :
    (fuel dev block : ℕ) (t : Cache) (b : HeadPtr)
    → 0 < fuel
    → t.hash_table (hashfn dev block) ≡ b
    → b ≢ 0
    → Holds t dev block b
    → find_buffer fuel dev block t ≡ some b
unfolding find_buffer find_from
find_first zero dev block t b lt head nz h = absurd (omega arith)
find_first (suc fuel) dev block t b lt head nz h = ground (arith, head, h.0, h.1)

pushed_head :
    (t : Cache) (b i : ℕ) (q : ℕ → List HeadPtr) → IsHashed t (push b i q) → t.hash_table i ≡ b
pushed_head t b i q h =
    let same : (i == i) ≡ true = eq→== i i refl in
    (subst (λ c. Queue t 0 (t.hash_table i) (if c then b ∷ q i else q i)) same (h.queue i)).0

-- A head of the list `xs` that `getblk` can take at once: unused, clean and not locked.
pub record Ready (s : Cache) (xs : List HeadPtr) (x : HeadPtr) : Type 0 where
  pub listed : In x xs
  pub unused : s.b_count x ≡ 0
  pub good : badness s x ≡ 0

Choice-Ready :
    (s : Cache) (xs : List HeadPtr) (x b : HeadPtr) → Ready s xs x → Choice s xs b → Ready s xs b
Choice-Ready s xs x b r (all_used all) =
    absurd (In-All (λ y. s.b_count y ≢ 0) xs r.listed all r.unused)
Choice-Ready s xs x b r (least c mem unused best) = record {
  listed = mem;
  unused = unused;
  good = omega (
    arith,
    In-All (λ y. s.b_count y ≡ 0 → badness s c ≤ badness s y) xs r.listed best r.unused,
    r.good,
  );
}

-- For a block of a device other than 0, below 2 ^ 16, that is not cached, in a cache in order with
-- two heads or more: if some head is ready, `getblk` returns a ready head in this round, in use
-- once, clean, not up to date and last in the free list, with all the lists in order, and the next
-- search for the block finds it.
pub getblk-Reused :
    (fuel dev block : ℕ) (s : Cache) (f z x : HeadPtr) (zs : List HeadPtr) (q : ℕ → List HeadPtr)
    → IsCache s f (z ∷ zs) q
    → dev ≢ 0
    → dev < 2 ^ 16
    → NotCached fuel dev block s (q (hashfn dev block))
    → Ready s (f ∷ z ∷ zs) x
    → (b : HeadPtr) × (t : Cache) × (getblk fuel (length (f ∷ z ∷ zs)) dev block s ≡ got b t)
      × Ready s (f ∷ z ∷ zs) b
      × Reused s (f ∷ z ∷ zs) q dev block b t
      × (find_buffer fuel dev block t ≡ some b)
getblk-Reused fuel dev block s f z x zs q c device short n ready =
    let ring = f ∷ z ∷ zs in
    let (b, found, choice) = pick-Choice s f (z ∷ zs) c.ring c.no_null c.distinct.0 in
    let r = Choice-Ready s ring x b ready choice in
    let exists = In-All (λ y. y ≢ 0) ring r.listed c.no_null in
    let (t, e, done) = reuse-Reused s f z zs q b dev block c r.listed device short in
    (
      b,
      t,
      getblk-take_free fuel (length ring) dev block s c.hashed n
          ∙ take_free-recheck fuel (length ring) dev block s b found exists (omega (arith, r.good))
          ∙ recheck_free-reuse fuel (length ring) dev block s b r.unused (omega (arith, r.good))
              (find_buffer-null c.hashed n)
          ∙ e,
      r,
      done,
      find_first fuel dev block t b (omega (arith, n.enough))
          (pushed_head t b (hashfn dev block) (λ i. erase b (q i)) done.hashed) exists done.holds,
    )

-- In a cache in order, if the block is not cached and every head is in use, `getblk` sleeps until
-- one is free, with the cache as it was.
pub getblk-waits :
    (fuel dev block : ℕ) (s : Cache) (f : HeadPtr) (xs : List HeadPtr) (q : ℕ → List HeadPtr)
    → IsCache s f xs q
    → NotCached fuel dev block s (q (hashfn dev block))
    → All (λ x. s.b_count x ≢ 0) (f ∷ xs)
    → getblk fuel (length (f ∷ xs)) dev block s ≡ waits_for_any s
unfolding take_free
getblk-waits fuel dev block s f xs q c n busy =
    let (b, found, choice) = pick-Choice s f xs c.ring c.no_null c.distinct.0 in
    getblk-take_free fuel (length (f ∷ xs)) dev block s c.hashed n
    ∙ rw (found, take_free) (rw (eq→== b 0 (null b choice)) refl)
  where
    null : (b : HeadPtr) → Choice s (f ∷ xs) b → b ≡ 0
    null b (all_used all) = refl
    null b (least c mem unused best) =
        absurd (In-All (λ x. s.b_count x ≢ 0) (f ∷ xs) mem busy unused)

-- In a cache in order, if the block is not cached, some head is unused, and all that are unused
-- are dirty and not locked, `getblk` goes to `repeat` with the cache as it was: the next round
-- does the same, without a sleep, until something else cleans a head.
pub getblk-spins :
    (fuel dev block : ℕ) (s : Cache) (f x : HeadPtr) (xs : List HeadPtr) (q : ℕ → List HeadPtr)
    → IsCache s f xs q
    → NotCached fuel dev block s (q (hashfn dev block))
    → In x (f ∷ xs)
    → s.b_count x ≡ 0
    → All (λ y. s.b_count y ≡ 0 → (s.b_dirt y ≢ 0) × (s.b_lock y ≡ 0)) (f ∷ xs)
    → getblk fuel (length (f ∷ xs)) dev block s ≡ repeats s
getblk-spins fuel dev block s f x xs q c n mem unused dirty =
    let ring = f ∷ xs in
    let (b, found, choice) = pick-Choice s f xs c.ring c.no_null c.distinct.0 in
    let (listed, free) = chosen b choice in
    let (d, l) =
      In-All (λ y. s.b_count y ≡ 0 → (s.b_dirt y ≢ 0) × (s.b_lock y ≡ 0)) ring listed dirty free in
    getblk-take_free fuel (length ring) dev block s c.hashed n
    ∙ take_free-recheck fuel (length ring) dev block s b found
        (In-All (λ y. y ≢ 0) ring listed c.no_null) l
    ∙ recheck_free-dirty fuel (length ring) dev block s b d
  where
    chosen : (b : HeadPtr) → Choice s (f ∷ xs) b → In b (f ∷ xs) × (s.b_count b ≡ 0)
    chosen b (all_used all) = absurd (In-All (λ y. s.b_count y ≢ 0) (f ∷ xs) mem all unused)
    chosen b (least c listed free best) = (listed, free)

-- With all hash queues in order, for a block that a head of its queue holds: `getblk` counts one
-- more user of a head that holds it, modulo 256, and returns that head, or sleeps on it if it is
-- locked.
pub getblk-cached :
    (fuel buffers dev block : ℕ) (s : Cache) (x : HeadPtr) (q : ℕ → List HeadPtr)
    → IsHashed s q
    → In x (q (hashfn dev block))
    → Holds s dev block x
    → length (q (hashfn dev block)) < fuel
    → (b : HeadPtr) × Holds s dev block b
      × In b (q (hashfn dev block))
      × (getblk fuel buffers dev block s ≡ (
          if s.b_lock b == 0
          then got b (set_count b (s.b_count b + 1) s)
          else waits_for_block b (set_count b (s.b_count b + 1) s)))
unfolding getblk get_hash_table recheck
getblk-cached fuel buffers dev block s x q h mem holds enough =
    let (b, e, l) =
      find_buffer-Lookup fuel dev block s (q (hashfn dev block)) (h.queue (hashfn dev block))
        enough in
    let (nz, at, listed) = present (q (hashfn dev block)) b l mem in
    (b, at, listed, rw (e, get_hash_table) (ground (arith, nz, at.0, at.1)))
  where
    middle : (ys zs : List HeadPtr) (b : HeadPtr) → In b (ys ++ b ∷ zs)
    middle [] zs b = inl refl
    middle (y ∷ ys) zs b = inr (middle ys zs b)

    present :
        (xs : List HeadPtr) (b : HeadPtr)
        → Lookup s dev block xs b
        → In x xs
        → (b ≢ 0) × Holds s dev block b × In b xs
    present xs b (missing all) i = absurd (In-All (λ y. Holds s dev block y → ⊥) xs i all holds)
    present xs b (Hash.hit ys c zs nz at before) i = (nz, at, middle ys zs c)
