-- ===== src/Mm/Protect.antt =====
-- `un_wp_page` and `do_wp_page` of mm/memory.c, and `lin2phy` of include/linux/mm.h: a write to a
-- shared page.
use mockos.Prelude.{
  update, ℕ, ◌+◌, ◌-◌, ◌*◌, ◌/◌, ◌%◌, ◌^◌, ◌<◌, ◌≤◌, ◌≡◌, ◌≢◌, ◌⊎◌, inl, inr, refl, ap, sym, ◌∙◌,
  arith, true, false, ◌&&◌, leb, if◌then◌else◌, Bool-cases, ◌==◌, ==→eq,
}
use mathlib.Core.Path.{subst}
use mockos.Prelude.Word.{page_base, set_write, or_seven, write_bit}
use mockos.Mm.State.{
  low_mem, page_size, paging_pages, map_nr, Mem, write_word, set_map, invalidate, copy_words,
  copy_words_in, copy_words_out,
}
use mockos.Mm.FreePage.{Allocated, get_free_page, get_free_page_cases}

-- copy_page(from, to)
unfoldable pub copy_page : (from to : ℕ) → Mem → Mem
copy_page from to s = record s { word = copy_words 1024 from to s.word }

-- mem_map[i]--, in an unsigned char
unfoldable pub drop_reference : ℕ → Mem → Mem
drop_reference i s = set_map i ((s.mem_map i + 255) % 256) s

-- The path of `un_wp_page` for a page that others use too.
unfoldable pub unshare : (table_entry old_page : ℕ) → Mem → Mem
unshare table_entry old_page s =
    let (new_page, s₁) = get_free_page s in
    let s₂ = if leb low_mem old_page then drop_reference (map_nr old_page) s₁ else s₁ in
    let s₃ = copy_page old_page new_page s₂ in
    invalidate (write_word table_entry (or_seven new_page) s₃)

unfoldable pub un_wp_page : (table_entry : ℕ) → Mem → Mem
un_wp_page table_entry s =
    let old_page = page_base (s.word table_entry) in
    if leb low_mem old_page && s.mem_map (map_nr old_page) == 1
    then invalidate (write_word table_entry (set_write (s.word table_entry)) s)
    else unshare table_entry old_page s

-- The address of the entry: `&y[(address >> 12) & 0x3ff]` in the table that the directory names.
abbrev pub wp_entry : Mem → ℕ → ℕ
wp_entry s address =
    let x = address / 2 ^ 20 % 4096 - address / 2 ^ 20 % 4 in
    let y = page_base (s.word x) in y + 4 * (address / 4096 % 1024)

-- The error code is not read.
unfoldable pub do_wp_page : (error_code address : ℕ) → Mem → Mem
do_wp_page error_code address s = un_wp_page (wp_entry s address) s

-- lin2phy(address)
unfoldable pub lin2phy : Mem → ℕ → ℕ
lin2phy s address =
    (address / 2 ^ 10 % 4096 - address / 2 ^ 10 % 4)
    + page_base (s.word (address / 2 ^ 20 % 4096 - address / 2 ^ 20 % 4))

-- `do_wp_page` unprotects the entry that `lin2phy` finds: the page fault handler and `copy_process`
-- agree on the entry of an address.
pub do_wp_page-lin2phy :
    (error_code address : ℕ) (s : Mem)
    → do_wp_page error_code address s ≡ un_wp_page (lin2phy s address) s
unfolding do_wp_page lin2phy
do_wp_page-lin2phy error_code address s = ap (λ p. un_wp_page p s) (omega arith)

-- The page that holds the address `a` is not on offer: it lies below LOW_MEM or has a count.
abbrev pub InUse : Mem → ℕ → Type 0
InUse s a = (a < low_mem) ⊎ (s.mem_map (map_nr a) ≢ 0)

-- What a fault leaves: the entry is writable, its page has no other user and the words of the
-- page that it named before; every other word in use is unchanged, and so is every count but
-- those of the two pages.
pub record Unshared (s : Mem) (table_entry : ℕ) (t : Mem) : Type 0 where
  pub writable : write_bit (t.word table_entry) ≡ 1
  pub sole : t.mem_map (map_nr (page_base (t.word table_entry))) ≡ 1
  pub same :
      (k : ℕ)
      → k < 1024
      → page_base (s.word table_entry) + 4 * k ≢ table_entry
      → t.word (page_base (t.word table_entry) + 4 * k)
        ≡ s.word (page_base (s.word table_entry) + 4 * k)
  pub others : (a : ℕ) → a ≢ table_entry → InUse s a → t.word a ≡ s.word a
  pub counts :
      (j : ℕ)
      → j ≢ map_nr (page_base (t.word table_entry))
      → t.mem_map j ≡ (
          if leb low_mem (page_base (s.word table_entry))
            && j == map_nr (page_base (s.word table_entry))
          then (s.mem_map j + 255) % 256
          else s.mem_map j)
  pub flushed : t.invalidations ≡ s.invalidations + 1

page_base-set_write : (x : ℕ) → page_base (set_write x) ≡ page_base x
page_base-set_write x = omega arith

un_wp_page-sole :
    (p : ℕ) (s : Mem)
    → (leb low_mem (page_base (s.word p)) && s.mem_map (map_nr (page_base (s.word p))) == 1) ≡ true
    → Unshared s p (un_wp_page p s)
unfolding un_wp_page
un_wp_page-sole p s h = rw h (record {
  writable = ground arith;
  sole = rw (written, page_base-set_write (s.word p)) (ground arith);
  same = λ k lt ne. rw (written, page_base-set_write (s.word p)) (ground arith);
  others = λ a ne inUse. ground arith;
  counts = λ j. rw (written, page_base-set_write (s.word p)) (λ ne. ground arith);
  flushed = refl;
})
  where
    written : update s.word p (set_write (s.word p)) p ≡ set_write (s.word p)
    written = ground arith

-- The page that `get_free_page` hands out holds no address in use.
pub apart :
    {s t : Mem} {page i : ℕ} (a : ℕ)
    → Allocated s page i t
    → InUse s a
    → (a < page) ⊎ (page + page_size ≤ a)
apart {s} {i} a new (inl low) = inl (omega (arith, new.address))
apart {s} {i} a new (inr ne) = elim (Bool-cases (map_nr a == i)) [
  | inl e ↦ absurd (ne (ap s.mem_map (==→eq (map_nr a) i e) ∙ new.was_free))
  | inr e ↦ ground (arith, new.address)
]

-- The copy, seen from the state before the allocation.
module _ {s t : Mem} {page i : ℕ} (old : ℕ) (new : Allocated s page i t) (al : old % 4096 ≡ 0) where
  page_apart : InUse s old → (old + 4096 ≤ page) ⊎ (page + 4096 ≤ old)
  page_apart inUse = omega (arith, apart old new inUse, new.address)

  page_words :
      (k : ℕ)
      → k < 1024
      → InUse s old
      → copy_words 1024 old page t.word (page + 4 * k) ≡ s.word (old + 4 * k)
  page_words k lt inUse =
      copy_words_in 1024 old page t.word k (page_apart inUse) lt
      ∙ new.outside (old + 4 * k) (omega (arith, page_apart inUse))

  other_words : (a : ℕ) → InUse s a → copy_words 1024 old page t.word a ≡ s.word a
  other_words a inUse =
      copy_words_out 1024 old page t.word a (apart a new inUse) ∙ new.outside a (apart a new inUse)

unshare_lem :
    (p : ℕ) (s : Mem) {i : ℕ}
    → Allocated s (get_free_page s).0 i (get_free_page s).1
    → InUse s p
    → InUse s (page_base (s.word p))
    → Unshared s p (unshare p (page_base (s.word p)) s)
unfolding unshare drop_reference copy_page
unshare_lem p s {i} new entry page = record {
  writable = ground (arith, new.address);
  sole = rw (written, base) (ground (arith, new.index, new.marked, old_index));
  same = λ k lt ne.
      rw (written, base) (ground (arith, page_words old new aligned k lt page, apart p new entry));
  others = λ a ne inUse. ground (arith, other_words old new aligned a inUse);
  counts = λ j. rw (written, base) (λ ne. ground (arith, new.index, new.others j, old_index));
  flushed = ground (arith, new.kept);
}
  where
    old : ℕ
    old = page_base (s.word p)

    aligned : old % 4096 ≡ 0
    aligned = omega arith

    written : (unshare p old s).word p ≡ or_seven (get_free_page s).0
    written = ground arith

    base : page_base (or_seven (get_free_page s).0) ≡ (get_free_page s).0
    base = omega (arith, new.address)

    old_index : low_mem ≤ old → map_nr old ≢ i
    old_index le e = omega (arith, apart old new page, new.address)

un_wp_page-many :
    (p : ℕ) (s : Mem)
    → (leb low_mem (page_base (s.word p)) && s.mem_map (map_nr (page_base (s.word p))) == 1) ≡ false
    → un_wp_page p s ≡ unshare p (page_base (s.word p)) s
unfolding un_wp_page
un_wp_page-many p s h = rw h

-- If a free page is at hand, and neither the entry nor the page that it names lies in a free page,
-- `un_wp_page` makes the entry writable: it names a page that it alone uses, with the words of the
-- page that it named before; every other word in use is unchanged, the count of the page before
-- goes down by one if the page changed, no count but those of the two pages changes, and the
-- translations are dropped once.
pub un_wp_page-Unshared :
    (p i : ℕ) (s : Mem)
    → i < paging_pages
    → s.mem_map i ≡ 0
    → InUse s p
    → InUse s (page_base (s.word p))
    → Unshared s p (un_wp_page p s)
un_wp_page-Unshared p i s lt free entry page =
    elim (Bool-cases (leb low_mem old && s.mem_map (map_nr old) == 1)) [
      | inl sole ↦ un_wp_page-sole p s sole
      | inr many ↦
          subst (Unshared s p) (sym (un_wp_page-many p s many)) (elim (get_free_page_cases s) [
            | inl (j, new) ↦ unshare_lem p s new entry page
            | inr x ↦ absurd (x.none_free i lt free)
          ])
    ]
  where
    old : ℕ
    old = page_base (s.word p)
