-- ===== src/Buffer/Init.antt =====
-- `buffer_init` of fs/buffer.c: the cache that the system starts with.
pub mod Loop
pub mod Start
use mockos.Prelude.{
  ℕ, zero, suc, ◌+◌, ◌-◌, ◌*◌, ◌/◌, ◌%◌, ◌^◌, ◌<◌, ◌≤◌, ◌≡◌, ◌≢◌, ◌⊎◌, inl, inr, refl, sym, ap,
  subst, ◌∙◌, arith, ◌==◌, leb, ltb, true, false, List, [], ◌∷◌, All, Distinct, Option, none, some,
  if◌then◌else◌, update, Bool-cases, ==→eq, eq→==,
}
use mockos.Prelude.Word.{sub32}
use mockos.Buffer.{HeadPtr, Cache, nr_hash}
use mockos.Buffer.Ring.{IsRing, Links, Linked}
use mockos.Buffer.Hashed.{IsHashed}
use mockos.Buffer.Rehash.{Stands, loose}
use mockos.Buffer.Reuse.{IsCache}

-- sizeof(struct buffer_head)
abbrev pub head_size : ℕ
head_size = 36

-- The body of the loop, without the counters.
unfoldable pub init_head : (h b : ℕ) → Cache → Cache
init_head h b s = record s {
  b_dev = update s.b_dev h 0;
  b_dirt = update s.b_dirt h 0;
  b_count = update s.b_count h 0;
  b_lock = update s.b_lock h 0;
  b_uptodate = update s.b_uptodate h 0;
  b_next = update s.b_next h 0;
  b_prev = update s.b_prev h 0;
  b_data = update s.b_data h b;
  b_prev_free = update s.b_prev_free h (h - head_size);
  b_next_free = update s.b_next_free h (h + head_size);
}

-- The loop, on fuel: `h` behind the last head, the rounds for NR_BUFFERS, and the cache.
unfoldable pub init_heads : ℕ → (h b : ℕ) → Cache → Option (HeadPtr × ℕ × Cache)
init_heads zero h b s = none
init_heads (suc fuel) h b s =
    let b' = sub32 b 1024 in
    let later =
      init_heads fuel (h + head_size) (if b' == 0x10_0000 then 0xa_0000 else b')
        (init_head h b' s) in
    if leb (h + head_size) b'
    then elim later [ none ↦ none | some (e, n, t) ↦ some (e, n + 1, t) ]
    else some (h, 0, s)

-- The stores behind the loop: the ring is closed, and the hash table cleared.
unfoldable pub close_ring : (start_buffer e : ℕ) → Cache → Cache
close_ring start_buffer e t = record t {
  free_list = start_buffer;
  b_prev_free = update t.b_prev_free start_buffer (e - head_size);
  b_next_free = update t.b_next_free (e - head_size) start_buffer;
  hash_table = λ i. if ltb i nr_hash then 0 else t.hash_table i;
}

-- NR_BUFFERS, and the cache. The loop goes down by 1024 bytes or more in each round.
unfoldable pub buffer_init : (start_buffer buffer_end : ℕ) → Cache → Option (ℕ × Cache)
buffer_init start_buffer buffer_end s =
    let b = if buffer_end == 2 ^ 20 then 640 * 1024 else buffer_end in
    elim (init_heads (buffer_end / 1024 + 1) start_buffer b s) [
      | none ↦ none
      | some (e, n, t) ↦ some (n, close_ring start_buffer e t)
    ]

-- `n` heads from `h` on
abbrev pub heads : ℕ → HeadPtr → List HeadPtr
heads zero h = []
heads (suc n) h = h ∷ heads n (h + head_size)
