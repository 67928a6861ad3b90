-- ===== src/Buffer/Init/Start.antt =====
-- The ring and the hash table that `buffer_init` of fs/buffer.c leaves.
use mockos.Prelude.{
  ℕ, zero, suc, ◌+◌, ◌*◌, ◌/◌, ◌^◌, ◌<◌, ◌≤◌, ◌≡◌, ◌≢◌, ◌⊎◌, inl, inr, refl, ap, subst, ◌∙◌, arith,
  ◌==◌, false, [], All, Distinct, some,
}
use mockos.Buffer.{HeadPtr, Cache, nr_hash}
use mockos.Buffer.Ring.{Links}
use mockos.Buffer.Rehash.{Stands, loose}
use mockos.Buffer.Reuse.{IsCache}
use mockos.Buffer.Init.{head_size, heads, init_heads, close_ring, buffer_init}
use mockos.Buffer.Init.Loop.{IsInitial, Made, init_heads-Made}

-- the cache behind the loop, with the ring closed
module _ (t : Cache) (start e : ℕ) where
  close-Links :
      (n h : ℕ)
      → start ≤ h
      → h + head_size * n + head_size ≡ e
      → All (IsInitial t e) (heads (suc n) h)
      → (h ≡ start) ⊎ (start < h)
      → Links (close_ring start e t) h (heads n (h + head_size)) start
  unfolding close_ring
  close-Links zero h le fin all at = (ground arith, ground arith)
  close-Links (suc n) h le fin all at = (
    (ground (arith, all.0.next_free), ground (arith, all.1.0.prev_free)),
    close-Links n (h + head_size) (omega arith) (omega arith) all.1 (inr (omega arith)),
  )

  close-Stands :
      (n h : ℕ)
      → All (IsInitial t e) (heads n h)
      → All (Stands (close_ring start e t) (λ i. [])) (heads n h)
  unfolding close_ring
  close-Stands zero h all = tt
  close-Stands (suc n) h all =
      (loose all.0.no_dev all.0.no_prev all.0.no_next, close-Stands n (h + head_size) all.1)

heads-above : (n h x : ℕ) → x < h → All (λ y. y ≢ x) (heads n h)
heads-above zero h x lt = tt
heads-above (suc n) h x lt = ((λ e. omega arith), heads-above n (h + head_size) x (omega arith))

heads-Distinct : (n h : ℕ) → Distinct (heads n h)
heads-Distinct zero h = tt
heads-Distinct (suc n) h =
    (heads-above n (h + head_size) h (omega arith), heads-Distinct n (h + head_size))

cleared :
    (t : Cache) (start e i : ℕ)
    → ((j : ℕ) → nr_hash ≤ j → t.hash_table j ≡ 0)
    → (close_ring start e t).hash_table i ≡ 0
unfolding close_ring
cleared t start e i past = ground (arith, past i)

-- A head of the new cache: free, clean and not locked, with a block behind all heads.
pub record IsNew (t : Cache) (e x : HeadPtr) : Type 0 where
  pub unused : t.b_count x ≡ 0
  pub clean : t.b_dirt x ≡ 0
  pub unlocked : t.b_lock x ≡ 0
  pub data_behind : e ≤ t.b_data x

close-IsNew :
    (t : Cache) (start e n h : ℕ)
    → All (IsInitial t e) (heads n h)
    → All (IsNew (close_ring start e t) e) (heads n h)
unfolding close_ring
close-IsNew t start e zero h all = tt
close-IsNew t start e (suc n) h all = (
  record {
    unused = all.0.unused;
    clean = all.0.clean;
    unlocked = all.0.unlocked;
    data_behind = all.0.data_behind;
  },
  close-IsNew t start e n (h + head_size) all.1,
)

close-IsCache :
    (s t : Cache) (start b e n : ℕ)
    → 1024 ≤ start
    → ((i : ℕ) → nr_hash ≤ i → s.hash_table i ≡ 0)
    → Made s start b e (suc n) t
    → IsCache (close_ring start e t) start (heads n (start + head_size)) (λ i. [])
unfolding close_ring
close-IsCache s t start b e n lo past m = record {
  ring = record {
    head = refl;
    links = close-Links t start e n start (omega arith) (omega (arith, m.finish)) m.all (inl refl);
  };
  distinct = heads-Distinct (suc n) start;
  no_null = heads-above (suc n) start 0 (omega arith);
  hashed = record {
    queue = λ i. cleared t start e i (λ j le. ap (λ g. g j) m.table ∙ past j le);
    in_place = λ i. tt;
    distinct = λ i. tt;
  };
  placed = close-Stands t start e (suc n) start m.all;
}

-- If the heads begin above 1 KB and end below 640 KB, one head and one block fit, and the end is
-- not 1 MB, `buffer_init` ends with one head or more and a cache in order: the free list is the
-- ring of the heads in the order of their addresses, the hash queues are empty, every head is
-- unused, clean and not locked, and its block lies behind all heads. Slots past the hash table are
-- taken as NULL.
pub buffer_init-IsCache :
    (start buffer_end : ℕ) (s : Cache)
    → 1024 ≤ start
    → start + head_size + 1024 ≤ buffer_end
    → buffer_end < 2 ^ 32
    → buffer_end ≢ 2 ^ 20
    → start + head_size * (buffer_end / 1024) ≤ 0xa_0000
    → ((i : ℕ) → nr_hash ≤ i → s.hash_table i ≡ 0)
    → (n : ℕ) × (t : Cache) × (buffer_init start buffer_end s ≡ some (suc n, t))
      × IsCache t start (heads n (start + head_size)) (λ i. [])
      × All (IsNew t (start + head_size * suc n)) (heads (suc n) start)
unfolding buffer_init
buffer_init-IsCache start buffer_end s lo fits hi not_low room past =
    let plain : (buffer_end == 2 ^ 20) ≡ false = ground (arith, not_low) in
    let (e, n, t, eq, m) =
      init_heads-Made (buffer_end / 1024 + 1) start buffer_end s lo (omega arith) hi (inl room)
        (omega arith) in
    from_made e n t plain eq m
  where
    from_made :
        (e n : ℕ) (t : Cache)
        → (buffer_end == 2 ^ 20) ≡ false
        → init_heads (buffer_end / 1024 + 1) start buffer_end s ≡ some (e, n, t)
        → Made s start buffer_end e n t
        → (n : ℕ) × (t : Cache) × (buffer_init start buffer_end s ≡ some (suc n, t))
          × IsCache t start (heads n (start + head_size)) (λ i. [])
          × All (IsNew t (start + head_size * suc n)) (heads (suc n) start)
    from_made e zero t plain eq m = absurd (omega (arith, m.some_head fits))
    from_made e (suc n) t plain eq m = (
      n,
      close_ring start e t,
      rw (plain, eq, buffer_init) refl,
      close-IsCache s t start buffer_end e n lo past m,
      subst (λ k. All (IsNew (close_ring start e t) k) (heads (suc n) start)) m.finish
          (close-IsNew t start e (suc n) start m.all),
    )
