-- ===== src/Mm/Tables/Entries.antt =====
-- The inner loop of `copy_page_tables`.
use mockos.Prelude.{
  ℕ, zero, suc, ◌+◌, ◌*◌, ◌%◌, ◌<◌, ◌≤◌, ◌≡◌, ◌≢◌, ◌⊎◌, refl, ap₂, ◌∙◌, arith, ◌&&◌, ◌==◌, ltb,
  if◌then◌else◌,
}
use mockos.Prelude.Word.{clear_write}
use mockos.Mm.State.{low_mem, map_nr, Mem}
use mockos.Mm.Tables.{add_reference, copy_entry, copy_entries}

-- whether the entry `e` is a page above LOW_MEM with the index `j`
abbrev pub refers : ℕ → ℕ → ℕ
refers j e = if ltb low_mem (clear_write e) && map_nr (clear_write e) == j then 1 else 0

-- How many of the `n` entries from `p` on refer to the page with the index `j`.
unfoldable pub references : ℕ → ℕ → ℕ → (ℕ → ℕ) → ℕ
references j zero p w = 0
references j (suc n) p w = refers j (w p) + references j n (p + 4) w

pub references-ext :
    (j n p : ℕ) (v w : ℕ → ℕ)
    → ((a : ℕ) → p ≤ a → a < p + 4 * n → v a ≡ w a)
    → references j n p v ≡ references j n p w
unfolding references
references-ext j zero p v w same = refl
references-ext j (suc n) p v w same =
    ap₂ (λ a b. refers j a + b) (same p (omega arith) (omega arith))
      (references-ext j n (p + 4) v w (λ a lo hi. same a (omega arith) (omega arith)))

abbrev pub Disjoint : ℕ → ℕ → ℕ → Type 0
Disjoint n f t = (f + 4 * n ≤ t) ⊎ (t + 4 * n ≤ f)

copy_entry_out :
    (f t : ℕ) (s : Mem) (a : ℕ)
    → (a < f) ⊎ (f < a)
    → (a < t) ⊎ (t < a)
    → (copy_entry f t s).word a ≡ s.word a
unfolding copy_entry add_reference
copy_entry_out f t s a hf ht = ground arith

copy_entry_at :
    (f t : ℕ) (s : Mem)
    → f ≢ t
    → ((copy_entry f t s).word t ≡ (if s.word f == 0 then s.word t else clear_write (s.word f)))
      × ((copy_entry f t s).word f
          ≡ (if ltb low_mem (clear_write (s.word f)) then clear_write (s.word f) else s.word f))
unfolding copy_entry add_reference
copy_entry_at f t s ne = ground arith

copy_entry-refers :
    (f t : ℕ) (s : Mem) (j : ℕ)
    → s.mem_map j < 256
    → (copy_entry f t s).mem_map j ≡ (s.mem_map j + refers j (s.word f)) % 256
unfolding copy_entry add_reference
copy_entry-refers f t s j small = ground arith

pub copy_entries_out :
    (n f t : ℕ) (s : Mem) (a : ℕ)
    → (a < f) ⊎ (f + 4 * n ≤ a)
    → (a < t) ⊎ (t + 4 * n ≤ a)
    → (copy_entries n f t s).word a ≡ s.word a
unfolding copy_entries
copy_entries_out zero f t s a hf ht = refl
copy_entries_out (suc n) f t s a hf ht =
    copy_entries_out n (f + 4) (t + 4) (copy_entry f t s) a (omega arith) (omega arith)
    ∙ copy_entry_out f t s a (omega arith) (omega arith)

-- What the two tables hold at their `k`-th entries.
pub copy_entries_at :
    (n f t : ℕ) (s : Mem) (k : ℕ)
    → Disjoint n f t
    → k < n
    → let e = s.word (f + 4 * k) in
      let u = copy_entries n f t s in
      (u.word (t + 4 * k) ≡ (if e == 0 then s.word (t + 4 * k) else clear_write e))
      × (u.word (f + 4 * k) ≡ (if ltb low_mem (clear_write e) then clear_write e else e))
unfolding copy_entries
copy_entries_at zero f t s k apart lt = absurd (omega arith)
copy_entries_at (suc n) f t s zero apart lt =
    let ef : f + 4 * 0 ≡ f = omega arith in
    let et : t + 4 * 0 ≡ t = omega arith in
    let at = copy_entry_at f t s (λ e. omega arith) in
    let s' = copy_entry f t s in
    rw (ef, et)
      (
        copy_entries_out n (f + 4) (t + 4) s' t (omega arith) (omega arith) ∙ at.0,
        copy_entries_out n (f + 4) (t + 4) s' f (omega arith) (omega arith) ∙ at.1,
      )
copy_entries_at (suc n) f t s (suc k) apart lt =
    let ef : f + 4 * suc k ≡ f + 4 + 4 * k = omega arith in
    let et : t + 4 * suc k ≡ t + 4 + 4 * k = omega arith in
    rw (ef, et)
      (ground (
        arith,
        copy_entries_at n (f + 4) (t + 4) (copy_entry f t s) k (omega arith) (omega arith),
        copy_entry_out f t s (f + 4 + 4 * k) (omega arith) (omega arith),
        copy_entry_out f t s (t + 4 + 4 * k) (omega arith) (omega arith),
      ))

pub copy_entries-references :
    (n f t : ℕ) (s : Mem) (j : ℕ)
    → Disjoint n f t
    → s.mem_map j < 256
    → (copy_entries n f t s).mem_map j ≡ (s.mem_map j + references j n f s.word) % 256
unfolding copy_entries references
copy_entries-references zero f t s j apart small = omega arith
copy_entries-references (suc n) f t s j apart small =
    let s' = copy_entry f t s in
    let head = copy_entry-refers f t s j small in
    let rest = copy_entries-references n (f + 4) (t + 4) s' j (omega arith) (omega (arith, head)) in
    let same =
      references-ext j n (f + 4) s'.word s.word
        (λ a lo hi. copy_entry_out f t s a (omega arith) (omega arith)) in
    omega (arith, rest, head, same)

pub copy_entries-invalidations :
    (n f t : ℕ) (s : Mem) → (copy_entries n f t s).invalidations ≡ s.invalidations
unfolding copy_entries copy_entry add_reference
copy_entries-invalidations zero f t s = refl
copy_entries-invalidations (suc n) f t s =
    copy_entries-invalidations n (f + 4) (t + 4) (copy_entry f t s) ∙ ground arith
