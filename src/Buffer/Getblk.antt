-- ===== src/Buffer/Getblk.antt =====
-- `get_hash_table` and `getblk` of fs/buffer.c. Both may sleep in `wait_on_buffer` and in
-- `sleep_on(&buffer_wait)`; they are cut there, and the part behind a sleep is a function of its own.
use mockos.Prelude.{ℕ, ◌+◌, ◌%◌, ◌^◌, ◌==◌, ◌&&◌, not, update, none, some, if◌then◌else◌}
use mockos.Buffer.{HeadPtr, Cache, remove_from_queues, insert_into_queues, find_buffer}
use mockos.Buffer.Search.{pick}

-- How a part of `get_hash_table` ends. `waits` is a sleep on the head's `b_wait`, `again` the next
-- round of its loop, `lost` a queue longer than the fuel.
pub data Probe : Type 0 where
  absent : Probe
  hit : HeadPtr → Cache → Probe
  waits : HeadPtr → Cache → Probe
  again : Cache → Probe
  lost : Probe

-- b_count is an unsigned char
abbrev pub set_count : HeadPtr → ℕ → Cache → Cache
set_count bh v s = record s { b_count = update s.b_count bh (v % 256) }

-- From the return of `wait_on_buffer` on.
unfoldable pub recheck : (dev block : ℕ) → HeadPtr → Cache → Probe
recheck dev block bh s =
    if s.b_dev bh == dev && s.b_blocknr bh == block
    then hit bh s
    else again (set_count bh (s.b_count bh + 255) s)

-- `wait_on_buffer`, up to its first sleep.
abbrev pub wait_on_buffer {ℓ} : {A : Type ℓ} → HeadPtr → Cache → (sleeps goes_on : A) → A
wait_on_buffer bh s sleeps goes_on = if s.b_lock bh == 0 then goes_on else sleeps

unfoldable pub get_hash_table : (fuel dev block : ℕ) → Cache → Probe
get_hash_table fuel dev block s = elim (find_buffer fuel dev block s) [
  | none ↦ lost
  | some bh ↦
      let t = set_count bh (s.b_count bh + 1) s in
      if bh == 0 then absent else wait_on_buffer bh t (waits bh t) (recheck dev block bh t)
]

-- How a part of `getblk` ends: with the head, in a sleep (inside `get_hash_table`, on a head that
-- was picked, or for a free head), at `repeat`, or with the panic of `remove_from_queues`.
pub data Round : Type 0 where
  got : HeadPtr → Cache → Round
  waits_for_block : HeadPtr → Cache → Round
  waits_for_head : HeadPtr → Cache → Round
  waits_for_any : Cache → Round
  repeats : Cache → Round
  corrupted : Round
  out_of_fuel : Round

-- b_dev is an unsigned short
abbrev pub set_block : HeadPtr → (dev block : ℕ) → Cache → Cache
set_block bh dev block s = record s {
  b_dev = update s.b_dev bh (dev % 2 ^ 16);
  b_blocknr = update s.b_blocknr bh block;
}

-- The head is taken for the block.
unfoldable pub reuse : (dev block : ℕ) → HeadPtr → Cache → Round
reuse dev block bh s =
    let t = record s {
      b_count = update s.b_count bh 1;
      b_dirt = update s.b_dirt bh 0;
      b_uptodate = update s.b_uptodate bh 0;
    } in
    elim (remove_from_queues bh t) [
      | none ↦ corrupted
      | some u ↦ got bh (insert_into_queues bh (set_block bh dev block u))
    ]

-- From the return of `wait_on_buffer` on the picked head on.
unfoldable pub recheck_free : (fuel dev block : ℕ) → HeadPtr → Cache → Round
recheck_free fuel dev block bh s =
    if not (s.b_count bh == 0)
    then repeats s
    else if not (s.b_dirt bh == 0)
    then repeats s
    else elim (find_buffer fuel dev block s) [
      | none ↦ out_of_fuel
      | some other ↦ if other == 0 then reuse dev block bh s else repeats s
    ]

-- From `tmp = free_list` on, where the block is not cached.
unfoldable pub take_free : (fuel buffers dev block : ℕ) → Cache → Round
take_free fuel buffers dev block s = elim (pick buffers s.free_list 0 s) [
  | none ↦ out_of_fuel
  | some bh ↦
      if bh == 0
      then waits_for_any s
      else wait_on_buffer bh s (waits_for_head bh s) (recheck_free fuel dev block bh s)
]

abbrev pub after_probe : (fuel buffers dev block : ℕ) → Cache → Probe → Round
after_probe fuel buffers dev block s absent = take_free fuel buffers dev block s
after_probe fuel buffers dev block s (hit bh t) = got bh t
after_probe fuel buffers dev block s (waits bh t) = waits_for_block bh t
after_probe fuel buffers dev block s (again t) = repeats t
after_probe fuel buffers dev block s lost = out_of_fuel

-- From `repeat` on, with `buffers` rounds for the ring and `fuel` for a queue.
unfoldable pub getblk : (fuel buffers dev block : ℕ) → Cache → Round
getblk fuel buffers dev block s =
    after_probe fuel buffers dev block s (get_hash_table fuel dev block s)
