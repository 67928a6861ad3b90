-- ===== src/Tests/Mm.antt =====
-- mm/memory.c and mm/swap.c on a small memory: a page table at 0x101000 with one entry, which names
-- the page 0x102000 that two tasks share.
use mockos.Prelude.{ℕ, ◌≡◌, ◌≢◌, ◌⊎◌, inr, refl, arith, ◌==◌, if◌then◌else◌}
use mockos.Mm.State.{Mem, invalidate}
use mockos.Mm.FreePage.{
  scan_free, get_free_page, Allocated, Exhausted, get_free_page_cases, get_free_page-ne-zero,
}
use mockos.Mm.Protect.{Unshared, un_wp_page, un_wp_page-Unshared}
use mockos.Mm.Tables.{add_reference, copied, dir_entry, copy_entry, copy_page_tables}
use mockos.Mm.Tables.Share.{Shared, CanShare, rounds, copy_page_tables-Shared}

abbrev shared_page : Mem
shared_page = record {
  mem_map = λ i. if i == 1 then 1 else if i == 2 then 2 else 0;
  before_map = 0;
  word = λ a. if a == 64 then 0x10_1007 else if a == 0x10_1000 then 0x10_2005 else 0;
  high_memory = 0x100_0000;
  invalidations = 0;
}

finds_last : scan_free shared_page.mem_map 8 ≡ 8
unfolding scan_free
finds_last = refl

finds_none : scan_free (λ i. 1) 8 ≡ 0
unfolding scan_free
finds_none = refl

counts_reference : (copy_entry 0x10_1000 0x10_3000 shared_page).mem_map 2 ≡ 3
unfolding copy_entry add_reference
counts_reference = refl

can_share : CanShare 0x400_0000 0x800_0000 0x40_0000 shared_page
can_share = record {
  from_aligned = refl;
  to_aligned = refl;
  some_size = omega arith;
  one_dir = omega arith;
  source_present = refl;
  target_absent = refl;
  outside_dir = omega arith;
  table_in_use = inr (omega arith);
}

copy_page_tables-Shared_example :
    (t : Mem) × (table : ℕ) × (i : ℕ) × (copy_page_tables 0x400_0000 0x800_0000 0x40_0000
        shared_page
      ≡ copied (invalidate t))
    × (t.invalidations ≡ shared_page.invalidations)
    × Shared shared_page (rounds 0x400_0000) (dir_entry 0x400_0000) (dir_entry 0x800_0000) table i t
copy_page_tables-Shared_example =
    copy_page_tables-Shared 0x400_0000 0x800_0000 0x40_0000 5 shared_page can_share (omega arith)
      (omega arith) refl

un_wp_page-Unshared_example : Unshared shared_page 0x10_1000 (un_wp_page 0x10_1000 shared_page)
un_wp_page-Unshared_example =
    un_wp_page-Unshared 0x10_1000 5 shared_page (omega arith) refl (inr (omega arith))
      (inr (omega arith))

get_free_page_cases_example :
    ((i : ℕ) × Allocated shared_page (get_free_page shared_page).0 i (get_free_page shared_page).1)
    ⊎ Exhausted shared_page (get_free_page shared_page).0 (get_free_page shared_page).1
get_free_page_cases_example = get_free_page_cases shared_page

get_free_page-ne-zero_example : (get_free_page shared_page).0 ≢ 0
get_free_page-ne-zero_example = get_free_page-ne-zero shared_page
