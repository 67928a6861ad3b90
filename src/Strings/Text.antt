-- ===== src/Strings/Text.antt =====
-- Texts in the memory, as lists of bytes, and what the loops of include/string.h find in them.
use mockos.Prelude.{
  subst, ℕ, zero, suc, ◌+◌, ◌-◌, ◌^◌, ◌<◌, ◌≤◌, ◌≡◌, ◌≢◌, ◌∙◌, arith, Bool, true, false, List, [],
  ◌∷◌, ◌++◌, length,
}
use mockos.Strings.{Bytes, repne_scasb, scan_end, strlen}

-- At the address `s` stand the bytes `xs`.
abbrev pub Stands : Bytes → ℕ → List ℕ → Type 0
Stands m s [] = Unit
Stands m s (x ∷ xs) = (m s ≡ x) × Stands m (s + 1) xs

-- At the address `s` stand the bytes `xs`, none of them 0, and then a byte 0.
abbrev pub IsText : Bytes → ℕ → List ℕ → Type 0
IsText m s [] = m s ≡ 0
IsText m s (x ∷ xs) = (m s ≡ x) × (x ≢ 0) × IsText m (s + 1) xs

pub repne_scasb-end :
    (n s : ℕ) (zf : Bool) (m : Bytes) (xs : List ℕ)
    → IsText m s xs
    → length xs < n
    → repne_scasb n s 0 zf m
      ≡ record { ecx = n - length xs - 1; edi = s + length xs + 1; zf = true }
unfolding repne_scasb
repne_scasb-end zero s zf m xs t lt = absurd (omega arith)
repne_scasb-end (suc n) s zf m [] t lt = ground arith
repne_scasb-end (suc n) s zf m (x ∷ xs) t lt =
    ground (arith, repne_scasb-end n (s + 1) false m xs t.2)

-- With a text shorter than 2 ^ 32 - 1 bytes, `strlen` is its length.
pub strlen-length :
    (s : ℕ) (m : Bytes) (xs : List ℕ)
    → IsText m s xs
    → length xs + 1 < 2 ^ 32
    → strlen s m ≡ length xs
unfolding strlen
strlen-length s m xs t lt =
    rw (repne_scasb-end (2 ^ 32 - 1) s false m xs t (omega arith)) (omega (arith, lt))

pub scan_end-edi :
    (s : ℕ) (m : Bytes) (xs : List ℕ)
    → IsText m s xs
    → length xs + 1 < 2 ^ 32
    → (scan_end s m).edi - 1 ≡ s + length xs
scan_end-edi s m xs t lt =
    rw (repne_scasb-end (2 ^ 32 - 1) s false m xs t (omega arith)) (omega arith)

-- `m'` has the bytes of `m` from `s` on to `s + n`.
abbrev pub Agree : Bytes → Bytes → (s n : ℕ) → Type 0
Agree m' m s n = (a : ℕ) → s ≤ a → a < s + n → m' a ≡ m a

pub Agree-IsText :
    {m' m : Bytes} (s : ℕ) (xs : List ℕ)
    → Agree m' m s (length xs + 1)
    → IsText m s xs
    → IsText m' s xs
Agree-IsText s [] same t = same s (omega arith) (omega arith) ∙ t
Agree-IsText s (x ∷ xs) same (e, ne, t) = (
  same s (omega arith) (omega arith) ∙ e,
  ne,
  Agree-IsText (s + 1) xs (λ a lo hi. same a (omega arith) (omega arith)) t,
)

-- A text with another behind it in the place of its end.
pub IsText-append :
    {m' m : Bytes} (s : ℕ) (xs ys : List ℕ)
    → Agree m' m s (length xs)
    → IsText m s xs
    → IsText m' (s + length xs) ys
    → IsText m' s (xs ++ ys)
IsText-append {m'} s [] ys same t u = subst (λ a. IsText m' a ys) (omega arith) u
IsText-append {m'} s (x ∷ xs) ys same (e, ne, t) u = (
  same s (omega arith) (omega arith) ∙ e,
  ne,
  IsText-append (s + 1) xs ys (λ a lo hi. same a (omega arith) (omega arith)) t
      (subst (λ a. IsText m' a ys) (omega arith) u),
)
