-- ===== src/Mm/Tables/Share.antt =====
-- `copy_page_tables` for up to 4 MB, which is one directory entry: what `copy_mem` of
-- kernel/fork.c asks for when task 0, with its 640 KB, forks.
use mockos.Prelude.{
  ℕ, ◌+◌, ◌*◌, ◌/◌, ◌%◌, ◌^◌, ◌<◌, ◌≤◌, ◌≡◌, ◌≢◌, ◌⊎◌, inl, inr, ◌∙◌, arith, ◌==◌, ltb,
  if◌then◌else◌, eq→==,
}
use mockos.Prelude.Word.{page_base, clear_write, or_seven}
use mockos.Mm.State.{low_mem, page_size, paging_pages, Mem, write_word, invalidate}
use mockos.Mm.FreePage.{Allocated, get_free_page, get_free_page_cases}
use mockos.Mm.Protect.{InUse, apart}
use mockos.Mm.Tables.{
  wrong_alignment, already_exist, copied, halted, copy_entries, copy_dir, copy_dirs, dir_entry,
  copy_page_tables,
}
use mockos.Mm.Tables.Entries.{
  references, copy_entries_at, copy_entries_out, copy_entries-references, references-ext,
  copy_entries-invalidations, Disjoint,
}

-- `t` is `s` after the first `nr` entries of the table behind `from_dir` went to a fresh table, the
-- page with the index `i`, behind `to_dir`.
pub record Shared (s : Mem) (nr from_dir to_dir table i : ℕ) (t : Mem) : Type 0 where
  pub address : table ≡ low_mem + i * page_size
  pub fresh : s.mem_map i ≡ 0
  pub present : t.word to_dir ≡ or_seven table
  pub child :
      (k : ℕ)
      → k < nr
      → let e = s.word (page_base (s.word from_dir) + 4 * k) in
        t.word (table + 4 * k) ≡ (if e == 0 then 0 else clear_write e)
  pub parent :
      (k : ℕ)
      → k < nr
      → let e = s.word (page_base (s.word from_dir) + 4 * k) in
        t.word (page_base (s.word from_dir) + 4 * k)
        ≡ (if ltb low_mem (clear_write e) then clear_write e else e)
  pub rest : (k : ℕ) → nr ≤ k → k < 1024 → t.word (table + 4 * k) ≡ 0
  pub counts :
      (j : ℕ)
      → j ≢ i
      → s.mem_map j < 256
      → t.mem_map j ≡ (s.mem_map j + references j nr (page_base (s.word from_dir)) s.word) % 256

module _ {s t : Mem} {page i : ℕ} (nr fd td : ℕ) (new : Allocated s page i t) (few : nr ≤ 1024)
    (ne : fd ≢ td) (dir : td < 4096) (off : 4096 ≤ page_base (s.word fd))
    (inUse : InUse s (page_base (s.word fd))) where
  from_table : ℕ
  from_table = page_base (s.word fd)

  start : Mem
  start = write_word td (or_seven page) t

  tables_apart : Disjoint nr from_table page
  unfolding from_table
  tables_apart = omega (arith, apart from_table new inUse, new.address)

  source : (a : ℕ) → from_table ≤ a → a < from_table + 4096 → start.word a ≡ s.word a
  unfolding from_table start
  source a lo hi =
      let out = new.outside a (omega (arith, apart from_table new inUse, new.address)) in
      ground (arith, out)

  target : (k : ℕ) → k < 1024 → start.word (page + 4 * k) ≡ 0
  unfolding start
  target k lt = ground (arith, new.cleared k lt, new.address)

  copy_dir-Shared : Shared s nr fd td page i (copy_entries nr from_table page start)
  unfolding from_table start
  copy_dir-Shared = record {
    address = new.address;
    fresh = new.was_free;
    present =
        copy_entries_out nr from_table page start td (omega arith) (omega (arith, new.address))
        ∙ ground arith;
    child = λ k lt. ground (
      arith,
      (copy_entries_at nr from_table page start k tables_apart lt).0,
      source (from_table + 4 * k) (omega arith) (omega arith),
      target k (omega arith),
    );
    parent = λ k lt. ground (
      arith,
      (copy_entries_at nr from_table page start k tables_apart lt).1,
      source (from_table + 4 * k) (omega arith) (omega arith),
    );
    rest = λ k lo hi.
        copy_entries_out nr from_table page start (page + 4 * k)
          (omega (arith, apart from_table new inUse, new.address)) (omega arith)
        ∙ target k hi;
    counts = λ j n small.
        copy_entries-references nr from_table page start j tables_apart
          (omega (arith, new.others j n))
        ∙ omega (
          arith,
          new.others j n,
          references-ext j nr from_table start.word s.word (λ a lo hi. source a lo (omega arith)),
        );
  }

-- What the call needs: aligned bases, one present and one absent directory entry, a source table
-- in use outside the directory, and a free page.
pub record CanShare (from to size : ℕ) (s : Mem) : Type 0 where
  pub from_aligned : from % 2 ^ 22 ≡ 0
  pub to_aligned : to % 2 ^ 22 ≡ 0
  pub some_size : 0 < size
  pub one_dir : size ≤ 2 ^ 22
  pub source_present : s.word (dir_entry from) % 2 ≡ 1
  pub target_absent : s.word (dir_entry to) % 2 ≡ 0
  pub outside_dir : 4096 ≤ page_base (s.word (dir_entry from))
  pub table_in_use : InUse s (page_base (s.word (dir_entry from)))

abbrev pub rounds : ℕ → ℕ
rounds from = if from == 0 then 0xa0 else 1024

copy_dir_lem :
    (nr fd td i : ℕ) (s : Mem)
    → Allocated s (get_free_page s).0 i (get_free_page s).1
    → s.word fd % 2 ≡ 1
    → s.word td % 2 ≡ 0
    → copy_dir nr fd td s
      ≡ copied (
          copy_entries nr
            (page_base (s.word fd))
            (get_free_page s).0
            (write_word td (or_seven (get_free_page s).0) (get_free_page s).1))
unfolding copy_dir
copy_dir_lem nr fd td i s new p q = ground (arith, new.address)

copy_page_tables_step :
    (from to size : ℕ) (s t : Mem)
    → CanShare from to size s
    → copy_dir (rounds from) (dir_entry from) (dir_entry to) s ≡ copied t
    → copy_page_tables from to size s ≡ copied (invalidate t)
unfolding copy_page_tables copy_dirs
copy_page_tables_step from to size s t can e =
    let one : (size + 0x3f_ffff) % 2 ^ 32 / 2 ^ 22 ≡ 1 = omega arith in
    rw (one, eq→== _ 0 can.from_aligned, eq→== _ 0 can.to_aligned) (rw (e, copy_dirs))

-- From and to multiples of 4 MB with different directory entries, for a size of 1 byte to 4 MB,
-- with the source's entry present and its table in use outside the directory, the target's entry
-- absent, and a free page at hand, `copy_page_tables` succeeds: the child's directory entry names
-- a fresh table that holds the parent's entries without the write bit, the parent's entries above
-- LOW_MEM lose it too, the count of each such page goes up by the number of entries that refer to
-- it, modulo 256, and the translations are dropped once.
pub copy_page_tables-Shared :
    (from to size free : ℕ) (s : Mem)
    → CanShare from to size s
    → dir_entry from ≢ dir_entry to
    → free < paging_pages
    → s.mem_map free ≡ 0
    → (t : Mem) × (table : ℕ) × (i : ℕ) × (copy_page_tables from to size s ≡ copied (invalidate t))
      × (t.invalidations ≡ s.invalidations)
      × Shared s (rounds from) (dir_entry from) (dir_entry to) table i t
unfolding from_table start
copy_page_tables-Shared from to size free s can ne lt is_free = elim (get_free_page_cases s) [
  | inl (i, new) ↦ shared i new
  | inr x ↦ absurd (x.none_free free lt is_free)
]
  where
    few : rounds from ≤ 1024
    few = ground arith

    shared :
        (i : ℕ)
        → Allocated s (get_free_page s).0 i (get_free_page s).1
        → (t : Mem) × (table : ℕ) × (i : ℕ) × (copy_page_tables from to size s
            ≡ copied (invalidate t))
          × (t.invalidations ≡ s.invalidations)
          × Shared s (rounds from) (dir_entry from) (dir_entry to) table i t
    shared i new = (
      copy_entries (rounds from) (page_base (s.word (dir_entry from))) (get_free_page s).0
          (write_word (dir_entry to) (or_seven (get_free_page s).0) (get_free_page s).1),
      (get_free_page s).0,
      i,
      copy_page_tables_step from to size s _ can (
          copy_dir_lem (rounds from) (dir_entry from) (dir_entry to) i s new can.source_present
            can.target_absent),
      copy_entries-invalidations (rounds from) (page_base (s.word (dir_entry from)))
            (get_free_page s).0 _
          ∙ new.kept.0,
      copy_dir-Shared (rounds from) (dir_entry from) (dir_entry to) new few ne (omega arith)
          can.outside_dir can.table_in_use,
    )

-- Bases that are no multiples of 4 MB stop the kernel before anything is changed.
pub copy_page_tables-wrong_alignment :
    (from to size : ℕ) (s : Mem)
    → (from % 2 ^ 22 ≢ 0) ⊎ (to % 2 ^ 22 ≢ 0)
    → copy_page_tables from to size s ≡ halted wrong_alignment s
unfolding copy_page_tables
copy_page_tables-wrong_alignment from to size s h = ground arith

-- So does a directory entry of the target that is present.
pub copy_page_tables-already_exist :
    (from to size : ℕ) (s : Mem)
    → from % 2 ^ 22 ≡ 0
    → to % 2 ^ 22 ≡ 0
    → 0 < size
    → size ≤ 2 ^ 22
    → s.word (dir_entry to) % 2 ≡ 1
    → copy_page_tables from to size s ≡ halted already_exist s
unfolding copy_page_tables copy_dirs copy_dir
copy_page_tables-already_exist from to size s a b lo hi p =
    let one : (size + 0x3f_ffff) % 2 ^ 32 / 2 ^ 22 ≡ 1 = omega arith in
    rw (one, eq→== _ 0 a, eq→== _ 0 b) (ground arith)
