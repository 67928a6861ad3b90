-- ===== src/Mm/FreePage.antt =====
-- `get_free_page` of mm/swap.c.
use mockos.Prelude.{
  update, ℕ, zero, suc, ◌+◌, ◌-◌, ◌*◌, ◌<◌, ◌≤◌, ◌≡◌, ◌≢◌, ◌⊎◌, inl, inr, refl, arith, ◌==◌,
  if◌then◌else◌, Bool-cases, ==→eq,
}
use mockos.Mm.State.{page_size, low_mem, paging_pages, Mem, set_map, map_nr}

-- `while (mem_map[i] && i >= 0) i--`, where `i` counts from 1: 0 stands for the index -1. The
-- loop reads mem_map[-1] before it tests `i >= 0`, and stops there whatever it reads.
unfoldable pub scan_free : (ℕ → ℕ) → ℕ → ℕ
scan_free m zero = 0
scan_free m (suc i) = if m i == 0 then suc i else scan_free m i

-- for (j = n; j >= 1; j--) { *m = 0; m--; }
unfoldable pub clear_words : ℕ → ℕ → (ℕ → ℕ) → ℕ → ℕ
clear_words zero m w = w
clear_words (suc j) m w = clear_words j (m - 4) (update w m 0)

-- mem_map[i] = 1, which writes the byte in front of the array at the index -1
abbrev pub mark : ℕ → Mem → Mem
mark zero s = record s { before_map = 1 }
mark (suc i) s = set_map i 1 s

-- From the index that the loop stops at: the page's address, and the state after the page is
-- marked and cleared.
unfoldable pub claim : ℕ → Mem → ℕ × Mem
claim i s =
    let page = i * page_size + low_mem - page_size in
    let s' = mark i s in (page, record s' { word = clear_words 1024 (page + 4092) s'.word })

unfoldable pub get_free_page : Mem → ℕ × Mem
get_free_page s = claim (scan_free s.mem_map paging_pages) s

-- Where the loop stops: the last free index below `n`, counted from 1, or 0.
pub data Scanned (m : ℕ → ℕ) (n : ℕ) : ℕ → Type 0 where
  found : (i : ℕ) → i < n → m i ≡ 0 → ((j : ℕ) → i < j → j < n → m j ≢ 0) → Scanned m n (suc i)
  exhausted : ((j : ℕ) → j < n → m j ≢ 0) → Scanned m n 0

Scanned-suc : {m : ℕ → ℕ} {n r : ℕ} → m n ≢ 0 → Scanned m n r → Scanned m (suc n) r
Scanned-suc {m} {n} ne (found i lt free above) =
    found i (omega arith) free (λ j lo hi. skip j lo hi)
  where
    skip : (j : ℕ) → i < j → j < suc n → m j ≢ 0
    skip j lo hi = elim (Bool-cases (j == n)) [
      | inl e ↦ rw (==→eq j n e) ne
      | inr e ↦ above j lo (ground arith)
    ]
Scanned-suc {m} {n} ne (exhausted all) = exhausted (λ j hi. skip j hi)
  where
    skip : (j : ℕ) → j < suc n → m j ≢ 0
    skip j hi = elim (Bool-cases (j == n)) [
      | inl e ↦ rw (==→eq j n e) ne
      | inr e ↦ all j (ground arith)
    ]

pub scan_free-Scanned : (m : ℕ → ℕ) (n : ℕ) → Scanned m n (scan_free m n)
unfolding scan_free
scan_free-Scanned m zero = exhausted (λ j lt. absurd (omega arith))
scan_free-Scanned m (suc n) = elim (Bool-cases (m n == 0)) [
  | inl e ↦ rw e (found n (omega arith) (==→eq (m n) 0 e) (λ j lo hi. absurd (omega arith)))
  | inr e ↦ rw e (Scanned-suc (λ z. ground arith) (scan_free-Scanned m n))
]

pub clear_words_out :
    (n base m : ℕ) (w : ℕ → ℕ) (a : ℕ)
    → 4 ≤ base
    → m + 4 ≡ base + 4 * n
    → (a < base) ⊎ (base + 4 * n ≤ a)
    → clear_words n m w a ≡ w a
unfolding clear_words
clear_words_out zero base m w a b e h = refl
clear_words_out (suc n) base m w a b e h =
    ground (arith, clear_words_out n base (m - 4) (update w m 0) a b (omega arith) (omega arith))

pub clear_words_in :
    (n base m : ℕ) (w : ℕ → ℕ) (k : ℕ)
    → 4 ≤ base
    → m + 4 ≡ base + 4 * n
    → k < n
    → clear_words n m w (base + 4 * k) ≡ 0
unfolding clear_words
clear_words_in zero base m w k b e lt = absurd (omega arith)
clear_words_in (suc n) base m w k b e lt = elim (Bool-cases (k == n)) [
  | inl q ↦
      let at : base + 4 * k ≡ m = omega (arith, ==→eq k n q) in
      let top : base + 4 * n ≤ m = omega arith in
      rw at
        (ground (arith, clear_words_out n base (m - 4) (update w m 0) m b (omega arith) (inr top)))
  | inr q ↦ clear_words_in n base (m - 4) (update w m 0) k b (omega arith) (ground arith)
]

-- What `get_free_page` promises of the page at `page` with the index `i`.
pub record Allocated (s : Mem) (page i : ℕ) (s' : Mem) : Type 0 where
  pub in_map : i < paging_pages
  pub was_free : s.mem_map i ≡ 0
  pub last : (j : ℕ) → i < j → j < paging_pages → s.mem_map j ≢ 0
  pub address : page ≡ low_mem + i * page_size
  pub index : map_nr page ≡ i
  pub marked : s'.mem_map i ≡ 1
  pub others : (j : ℕ) → j ≢ i → s'.mem_map j ≡ s.mem_map j
  pub cleared : (k : ℕ) → k < 1024 → s'.word (page + 4 * k) ≡ 0
  pub outside : (a : ℕ) → (a < page) ⊎ (page + page_size ≤ a) → s'.word a ≡ s.word a
  pub kept : (s'.invalidations ≡ s.invalidations) × (s'.high_memory ≡ s.high_memory)
  pub before_kept : s'.before_map ≡ s.before_map

-- With no free page: the byte in front of the map and the page below LOW_MEM are overwritten.
pub record Exhausted (s : Mem) (page : ℕ) (s' : Mem) : Type 0 where
  pub none_free : (j : ℕ) → j < paging_pages → s.mem_map j ≢ 0
  pub address : page ≡ low_mem - page_size
  pub before : s'.before_map ≡ 1
  pub same_map : s'.mem_map ≡ s.mem_map
  pub cleared : (k : ℕ) → k < 1024 → s'.word (page + 4 * k) ≡ 0
  pub outside : (a : ℕ) → (a < page) ⊎ (page + page_size ≤ a) → s'.word a ≡ s.word a

claim-suc :
    (s : Mem) (i : ℕ)
    → i < paging_pages
    → s.mem_map i ≡ 0
    → ((j : ℕ) → i < j → j < paging_pages → s.mem_map j ≢ 0)
    → Allocated s (claim (suc i) s).0 i (claim (suc i) s).1
unfolding claim
claim-suc s i lt free above = record {
  in_map = lt;
  was_free = free;
  last = above;
  address = omega arith;
  index = omega arith;
  marked = ground arith;
  others = λ j ne. ground arith;
  cleared = λ k h. clear_words_in 1024 _ _ s.word k (omega arith) (omega arith) h;
  outside = λ a h. clear_words_out 1024 _ _ s.word a (omega arith) (omega arith) h;
  kept = (refl, refl);
  before_kept = refl;
}

claim-zero :
    (s : Mem)
    → ((j : ℕ) → j < paging_pages → s.mem_map j ≢ 0)
    → Exhausted s (claim 0 s).0 (claim 0 s).1
unfolding claim
claim-zero s all = record {
  none_free = all;
  address = refl;
  before = refl;
  same_map = refl;
  cleared = λ k h. clear_words_in 1024 _ _ s.word k (omega arith) (omega arith) h;
  outside = λ a h. clear_words_out 1024 _ _ s.word a (omega arith) (omega arith) h;
}

claim_cases :
    (s : Mem) {i : ℕ}
    → Scanned s.mem_map paging_pages i
    → ((j : ℕ) × Allocated s (claim i s).0 j (claim i s).1)
      ⊎ Exhausted s (claim i s).0 (claim i s).1
claim_cases s (found i lt free above) = inl (i, claim-suc s i lt free above)
claim_cases s (exhausted all) = inr (claim-zero s all)

-- `get_free_page` takes the last free page, marks it with the count 1, clears its 1024 words and
-- changes nothing else; with no free page it returns LOW_MEM - PAGE_SIZE, marks the byte in front
-- of the map and clears the page at that address.
pub get_free_page_cases :
    (s : Mem)
    → ((i : ℕ) × Allocated s (get_free_page s).0 i (get_free_page s).1)
      ⊎ Exhausted s (get_free_page s).0 (get_free_page s).1
unfolding get_free_page
get_free_page_cases s = claim_cases s (scan_free-Scanned s.mem_map paging_pages)

-- The address that `get_free_page` returns is never 0, also when no page is free: a test of the
-- result against 0 tells nothing.
pub get_free_page-ne-zero : (s : Mem) → (get_free_page s).0 ≢ 0
get_free_page-ne-zero s = elim (get_free_page_cases s) [
  | inl (i, a) ↦ omega (arith, a.address)
  | inr x ↦ omega (arith, x.address)
]
