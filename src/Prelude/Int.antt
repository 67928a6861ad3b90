-- ===== src/Prelude/Int.antt =====
-- Signed integers over the native numbers, as far as the C code needs them.
use mockos.Prelude.{ℕ, suc, ◌+◌, ◌-◌, ◌%◌, ◌^◌, ◌<◌, ◌≤◌, ◌≡◌, arith, Bool, leb, ltb, if◌then◌else◌}

-- `negsuc n` is -(n + 1).
pub data ℤ : Type 0 where
  pos : ℕ → ℤ
  negsuc : ℕ → ℤ

abbrev pub pos_part : ℤ → ℕ
pos_part (pos n) = n
pos_part (negsuc n) = 0

abbrev pub neg_part : ℤ → ℕ
neg_part (pos n) = 0
neg_part (negsuc n) = suc n

-- a - b, as an integer.
abbrev pub sub_ℕ : ℕ → ℕ → ℤ
sub_ℕ a b = if leb b a then pos (a - b) else negsuc (b - a - 1)

infixl 65 ◌-ℤ◌
abbrev pub ◌-ℤ◌ : ℤ → ℤ → ℤ
a -ℤ b = sub_ℕ (pos_part a + neg_part b) (neg_part a + pos_part b)

abbrev pub ltb_ℤ : ℤ → ℤ → Bool
ltb_ℤ a b = ltb (pos_part a + neg_part b) (pos_part b + neg_part a)

-- The `int` that a 32-bit pattern stands for.
abbrev pub signed32 : ℕ → ℤ
signed32 w = if ltb w (2 ^ 31) then pos w else negsuc (2 ^ 32 - w - 1)

-- The `int` that keeps the low 32 bits of an integer.
abbrev pub int_of : ℤ → ℤ
int_of a = signed32 ((pos_part a + 2 ^ 32 - neg_part a % 2 ^ 32) % 2 ^ 32)

-- a - b on an `int`, which wraps.
abbrev pub sub_int : ℤ → ℤ → ℤ
sub_int a b = int_of (a -ℤ b)

-- A difference that does not go below -2 ^ 31 is exact.
pub sub_int_parts :
    (a : ℤ) (k : ℕ)
    → pos_part a < 2 ^ 31
    → neg_part a + k ≤ 2 ^ 31
    → (pos_part (sub_int a (pos k)) ≡ pos_part a - k)
      × (neg_part (sub_int a (pos k)) ≡ neg_part a + (k - pos_part a))
sub_int_parts (pos n) k lt le = (ground arith, ground arith)
sub_int_parts (negsuc n) k lt le = (ground arith, ground arith)
