-- ===== src/Buffer.antt =====
-- The buffer cache of fs/buffer.c: heads, hash queues and free list. A head is known by its address;
-- each field of `struct buffer_head` is a function of it. The functions are here and in the children
-- `Search`, `Getblk` and `Init`, the lemmas on the two lists in `Ring` and `Hash`.
pub mod Ring
pub mod Hash
pub mod Queues
pub mod Search
pub mod Hashed
pub mod Rehash
pub mod Getblk
pub mod Frames
pub mod Reuse
pub mod Answer
pub mod Beside
pub mod Placed
pub mod Init
use mockos.Prelude.{
  ℕ, zero, suc, ◌+◌, ◌*◌, ◌%◌, ◌==◌, ◌&&◌, update, Option, none, some, if◌then◌else◌,
}
use Prim.Native.Nat.{bit_xor}

-- A pointer to a `struct buffer_head`; 0 is NULL.
abbrev pub HeadPtr : Type 0
HeadPtr = ℕ

abbrev pub nr_hash : ℕ
nr_hash = 307

-- `b_wait` is the head of a wait queue, which the scheduler's part models.
pub record Cache : Type 0 where
  pub b_data : HeadPtr → ℕ
  pub b_blocknr : HeadPtr → ℕ
  pub b_dev : HeadPtr → ℕ
  pub b_uptodate : HeadPtr → ℕ
  pub b_dirt : HeadPtr → ℕ
  pub b_count : HeadPtr → ℕ
  pub b_lock : HeadPtr → ℕ
  pub b_prev : HeadPtr → HeadPtr
  pub b_next : HeadPtr → HeadPtr
  pub b_prev_free : HeadPtr → HeadPtr
  pub b_next_free : HeadPtr → HeadPtr
  pub hash_table : ℕ → HeadPtr
  pub free_list : HeadPtr

abbrev pub hashfn : (dev block : ℕ) → ℕ
hashfn dev block = bit_xor dev block % nr_hash

-- The slot of the head `bh`.
abbrev pub slot : Cache → HeadPtr → ℕ
slot s bh = hashfn (s.b_dev bh) (s.b_blocknr bh)

abbrev pub badness : Cache → HeadPtr → ℕ
badness s bh = 2 * s.b_dirt bh + s.b_lock bh

-- `if (p) p->field = v`
abbrev pub store_if : HeadPtr → HeadPtr → (HeadPtr → HeadPtr) → HeadPtr → HeadPtr
store_if p v field = if p == 0 then field else update field p v

-- The first half of `remove_from_queues`. The second store is through the `b_next` of before.
unfoldable pub remove_from_hash : HeadPtr → Cache → Cache
remove_from_hash bh s = record s {
  b_prev = store_if (s.b_next bh) (s.b_prev bh) s.b_prev;
  b_next = store_if (s.b_prev bh) (s.b_next bh) s.b_next;
  hash_table =
      if s.hash_table (slot s bh) == bh
      then update s.hash_table (slot s bh) (store_if (s.b_prev bh) (s.b_next bh) s.b_next bh)
      else s.hash_table;
}

-- The second half, with `b_next_free` read after the two stores.
unfoldable pub remove_from_free : HeadPtr → Cache → Cache
remove_from_free bh s =
    let pf = update s.b_prev_free (s.b_next_free bh) (s.b_prev_free bh) in
    let nf = update s.b_next_free (pf bh) (s.b_next_free bh) in
    record s {
      b_prev_free = pf;
      b_next_free = nf;
      free_list = if s.free_list == bh then nf s.free_list else s.free_list;
    }

-- `none` is the panic "Free block list corrupted", of which the code tests `b_prev_free` twice.
unfoldable pub remove_from_queues : HeadPtr → Cache → Option Cache
remove_from_queues bh s =
    let t = remove_from_hash bh s in
    if t.b_prev_free bh == 0 then none else some (remove_from_free bh t)

unfoldable pub insert_into_free : HeadPtr → Cache → Cache
insert_into_free bh s =
    let last = s.b_prev_free s.free_list in
    record s {
      b_prev_free = update (update s.b_prev_free bh last) s.free_list bh;
      b_next_free = update (update s.b_next_free bh s.free_list) last bh;
    }

-- A head without a device is in no hash queue.
unfoldable pub insert_into_hash : HeadPtr → Cache → Cache
insert_into_hash bh s =
    let first = s.hash_table (slot s bh) in
    let prev = update s.b_prev bh 0 in
    let next = update s.b_next bh 0 in
    if s.b_dev bh == 0 then record s { b_prev = prev; b_next = next } else record s {
      b_prev = store_if first bh prev;
      b_next = update next bh first;
      hash_table = update s.hash_table (slot s bh) bh;
    }

unfoldable pub insert_into_queues : HeadPtr → Cache → Cache
insert_into_queues bh s = insert_into_hash bh (insert_into_free bh s)

-- for (tmp = ...; tmp != NULL; tmp = tmp->b_next), on fuel: `none` is a queue longer than the fuel.
unfoldable pub find_from : ℕ → (dev block : ℕ) → HeadPtr → Cache → Option HeadPtr
find_from zero dev block tmp s = none
find_from (suc fuel) dev block tmp s =
    let later = find_from fuel dev block (s.b_next tmp) s in
    if tmp == 0
    then some 0
    else if (s.b_dev tmp == dev) && (s.b_blocknr tmp == block)
    then some tmp
    else later

unfoldable pub find_buffer : (fuel dev block : ℕ) → Cache → Option HeadPtr
find_buffer fuel dev block s = find_from fuel dev block (s.hash_table (hashfn dev block)) s
