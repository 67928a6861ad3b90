-- ===== src/Mm/Tables.antt =====
-- `copy_page_tables` of mm/memory.c: a child shares the pages of its parent.
pub mod Entries
pub mod Share
use mockos.Prelude.{
  update, ℕ, zero, suc, ◌+◌, ◌-◌, ◌*◌, ◌/◌, ◌%◌, ◌^◌, ◌==◌, ◌||◌, not, ltb, if◌then◌else◌,
}
use mockos.Prelude.Word.{page_base, clear_write, or_seven}
use mockos.Mm.State.{low_mem, map_nr, Mem, write_word, set_map, invalidate}
use mockos.Mm.FreePage.{get_free_page}

-- `panic` prints its text and spins, so nothing after it runs.
pub data Panic : Type 0 where
  wrong_alignment already_exist : Panic

-- `copied` is the return value 0, `out_of_memory` is -1.
pub data Outcome : Type 0 where
  copied : Mem → Outcome
  out_of_memory : Mem → Outcome
  halted : Panic → Mem → Outcome

-- mem_map[i]++, in an unsigned char
unfoldable pub add_reference : ℕ → Mem → Mem
add_reference i s = set_map i ((s.mem_map i + 1) % 256) s

-- The body of the inner loop, at one pair of entries.
unfoldable pub copy_entry : (from_entry to_entry : ℕ) → Mem → Mem
copy_entry from_entry to_entry s =
    let this_page = clear_write (s.word from_entry) in
    let s₁ = write_word to_entry this_page s in
    if s.word from_entry == 0
    then s
    else if ltb low_mem this_page
    then add_reference (map_nr this_page) (write_word from_entry this_page s₁)
    else s₁

-- for (; nr-- > 0; from_page_table++, to_page_table++)
unfoldable pub copy_entries : (nr from_page_table to_page_table : ℕ) → Mem → Mem
copy_entries zero from_page_table to_page_table s = s
copy_entries (suc nr) from_page_table to_page_table s =
    copy_entries nr (from_page_table + 4) (to_page_table + 4)
      (copy_entry from_page_table to_page_table s)

-- The body of the outer loop, at one pair of directory entries; `nr` entries of a table are copied.
unfoldable pub copy_dir : (nr from_dir to_dir : ℕ) → Mem → Outcome
copy_dir nr from_dir to_dir s =
    let from_page_table = page_base (s.word from_dir) in
    let (to_page_table, s₁) = get_free_page s in
    let s₂ = write_word to_dir (or_seven to_page_table) s₁ in
    if s.word to_dir % 2 == 1
    then halted already_exist s
    else if s.word from_dir % 2 == 0
    then copied s
    else if to_page_table == 0
    then out_of_memory s₁
    else copied (copy_entries nr from_page_table to_page_table s₂)

abbrev pub and_then : Outcome → (Mem → Outcome) → Outcome
and_then (copied s) k = k s
and_then (out_of_memory s) k = out_of_memory s
and_then (halted p s) k = halted p s

-- for (; size-- > 0; from_dir++, to_dir++)
unfoldable pub copy_dirs : (nr size from_dir to_dir : ℕ) → Mem → Outcome
copy_dirs nr zero from_dir to_dir s = copied s
copy_dirs nr (suc size) from_dir to_dir s =
    and_then (copy_dir nr from_dir to_dir s) (copy_dirs nr size (from_dir + 4) (to_dir + 4))

-- `(x >> 20) & 0xffc`
abbrev pub dir_entry : ℕ → ℕ
dir_entry x = x / 2 ^ 20 % 4096 - x / 2 ^ 20 % 4

unfoldable pub copy_page_tables : (from to size : ℕ) → Mem → Outcome
copy_page_tables from to size s =
    let nr = if from == 0 then 0xa0 else 1024 in
    let dirs = (size + 0x3f_ffff) % 2 ^ 32 / 2 ^ 22 in
    if not (from % 2 ^ 22 == 0) || not (to % 2 ^ 22 == 0)
    then halted wrong_alignment s
    else and_then (copy_dirs nr dirs (dir_entry from) (dir_entry to) s) (λ t. copied (invalidate t))
