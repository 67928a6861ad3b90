-- ===== src/Mm/State.antt =====
-- The state that mm/memory.c and mm/swap.c share, and the accesses that they make to it.
use mockos.Prelude.{update, ℕ, zero, suc, ◌+◌, ◌-◌, ◌*◌, ◌/◌, ◌<◌, ◌≤◌, ◌≡◌, ◌⊎◌, refl, arith}

abbrev pub page_size : ℕ
page_size = 4096

abbrev pub low_mem : ℕ
low_mem = 0x10_0000

abbrev pub used : ℕ
used = 100

-- PAGING_MEMORY >> 12
abbrev pub paging_pages : ℕ
paging_pages = 15 * 1024 * 1024 / 4096

-- MAP_NR, at an address from LOW_MEM on
abbrev pub map_nr : ℕ → ℕ
map_nr addr = (addr - low_mem) / 4096

-- `mem_map` is the byte array, `before_map` the byte in front of it, `word a` the 32-bit word at
-- the byte address `a`, a multiple of 4. `invalidations` counts the loads of cr3.
pub record Mem : Type 0 where
  pub mem_map : ℕ → ℕ
  pub before_map : ℕ
  pub word : ℕ → ℕ
  pub high_memory : ℕ
  pub invalidations : ℕ

abbrev pub write_word : ℕ → ℕ → Mem → Mem
write_word a v s = record s { word = update s.word a v }

abbrev pub set_map : ℕ → ℕ → Mem → Mem
set_map i v s = record s { mem_map = update s.mem_map i v }

-- Loading cr3 drops the cached translations.
abbrev pub invalidate : Mem → Mem
invalidate s = record s { invalidations = s.invalidations + 1 }

-- for (; n > 0; n--) map[i++] = v
unfoldable pub fill : ℕ → ℕ → ℕ → (ℕ → ℕ) → ℕ → ℕ
fill zero i v m = m
fill (suc n) i v m = fill n (i + 1) v (update m i v)

-- `cld; rep movsl`: n words, upwards
unfoldable pub copy_words : ℕ → (from to : ℕ) → (ℕ → ℕ) → ℕ → ℕ
copy_words zero from to w = w
copy_words (suc n) from to w = copy_words n (from + 4) (to + 4) (update w to (w from))

pub fill_out : (n i v : ℕ) (m : ℕ → ℕ) (a : ℕ) → (a < i) ⊎ (i + n ≤ a) → fill n i v m a ≡ m a
unfolding fill
fill_out zero i v m a h = refl
fill_out (suc n) i v m a h = ground (arith, fill_out n (i + 1) v (update m i v) a)

pub fill_in : (n i v : ℕ) (m : ℕ → ℕ) (a : ℕ) → i ≤ a → a < i + n → fill n i v m a ≡ v
unfolding fill
fill_in zero i v m a lo hi = absurd (omega arith)
fill_in (suc n) i v m a lo hi =
    ground (arith, fill_in n (i + 1) v (update m i v) a, fill_out n (i + 1) v (update m i v) a)

-- What lies outside the target is unchanged.
pub copy_words_out :
    (n from to : ℕ) (w : ℕ → ℕ) (a : ℕ)
    → (a < to) ⊎ (to + 4 * n ≤ a)
    → copy_words n from to w a ≡ w a
unfolding copy_words
copy_words_out zero from to w a h = refl
copy_words_out (suc n) from to w a h =
    ground (arith, copy_words_out n (from + 4) (to + 4) (update w to (w from)) a)

-- Where source and target do not overlap, the target gets the words of the source.
pub copy_words_in :
    (n from to : ℕ) (w : ℕ → ℕ) (k : ℕ)
    → (from + 4 * n ≤ to) ⊎ (to + 4 * n ≤ from)
    → k < n
    → copy_words n from to w (to + 4 * k) ≡ w (from + 4 * k)
unfolding copy_words
copy_words_in zero from to w k h lt = absurd (omega arith)
copy_words_in (suc n) from to w zero h lt =
    ground (arith, copy_words_out n (from + 4) (to + 4) (update w to (w from)) (to + 4 * 0))
copy_words_in (suc n) from to w (suc k) h lt =
    let e : to + 4 * suc k ≡ to + 4 + 4 * k = omega arith in
    let d : from + 4 * suc k ≡ from + 4 + 4 * k = omega arith in
    rw (e, d)
      (ground (
        arith,
        copy_words_in n (from + 4) (to + 4) (update w to (w from)) k (omega arith) (omega arith),
      ))
