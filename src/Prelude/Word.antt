-- ===== src/Prelude/Word.antt =====
-- 32-bit words as native numbers below 2 ^ 32: a wrapping difference, and the bits of a word.
-- `x & ~(2 ^ k - 1)` is `x - x % 2 ^ k`, `x >> k` is `x / 2 ^ k`, `x & (2 ^ k - 1)` is `x % 2 ^ k`.
use Prim.Native.Nat.{ℕ, ◌+◌, ◌-◌, ◌*◌, ◌/◌, ◌%◌, ◌^◌}

-- a - b in `unsigned long`
abbrev pub sub32 : ℕ → ℕ → ℕ
sub32 a b = (a + 2 ^ 32 - b) % 2 ^ 32

-- bit 1 of a page table entry: `x & 2`, `x | 2`, `x & ~2`
abbrev pub write_bit : ℕ → ℕ
write_bit x = x / 2 % 2

abbrev pub set_write : ℕ → ℕ
set_write x = x + 2 - 2 * write_bit x

abbrev pub clear_write : ℕ → ℕ
clear_write x = x - 2 * write_bit x

-- `x & 0xfffff000`
abbrev pub page_base : ℕ → ℕ
page_base x = x - x % 4096

-- `x | 7`
abbrev pub or_seven : ℕ → ℕ
or_seven x = x - x % 8 + 7
