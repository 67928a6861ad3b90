-- ===== src/Printf/Convert.antt =====
-- The digits that `number` writes into `tmp`.
use native.Mathlib.Nat.{div-add-mod, pow-suc}
use mockos.Prelude.{
  All, ℕ, zero, suc, ◌+◌, ◌-◌, ◌*◌, ◌/◌, ◌%◌, ◌^◌, ◌<◌, ◌≤◌, ◌≡◌, refl, sym, arith, ◌==◌, ltb, Bool,
  true, false, [], ◌∷◌, some, if◌then◌else◌, length, inl, inr, Bool-cases, ==→eq,
}
use mockos.Printf.{Bytes, digit, convert, is_digit}

-- What a byte stands for as a digit, in either case.
abbrev pub digit_value : ℕ → ℕ
digit_value c = if ltb c b'A' then c - b'0' else if ltb c b'a' then c - b'A' + 10 else c - b'a' + 10

-- The number that digits denote, the last digit first.
unfoldable pub value : ℕ → Bytes → ℕ
value base [] = 0
value base (c ∷ cs) = digit_value c + base * value base cs

-- A test that every digit below the given bound passes.
passes : (ℕ → Bool) → ℕ → Bool
passes test zero = true
passes test (suc d) = if test d then passes test d else false

passes-at :
    (test : ℕ → Bool) (bound : ℕ) {d : ℕ} → d < bound → passes test bound ≡ true → test d ≡ true
unfolding passes
passes-at test zero lt all = absurd (omega arith)
passes-at test (suc bound) {d} lt all = ground (arith, passes-at test bound {d = d})

pub digit_value-digit : (small : Bool) (d : ℕ) → d < 36 → digit_value (digit small d) ≡ d
unfolding passes digit
digit_value-digit small d lt =
    ==→eq _ d (passes-at (λ e. digit_value (digit small e) == e) 36 lt (table small))
  where
    table : (small : Bool) → passes (λ e. digit_value (digit small e) == e) 36 ≡ true
    table true = refl
    table false = refl

pub digit_decimal : (small : Bool) (d : ℕ) → d < 10 → digit small d ≡ b'0' + d
unfolding passes digit
digit_decimal small d lt =
    ==→eq _ _ (passes-at (λ e. digit small e == (b'0' + e)) 10 lt (table small))
  where
    table : (small : Bool) → passes (λ e. digit small e == (b'0' + e)) 10 ≡ true
    table true = refl
    table false = refl

small_rem : (num base : ℕ) → 2 ≤ base → base ≤ 36 → num % base < 36
small_rem num base lo hi = grind arith

small_rem_10 : (num base : ℕ) → 2 ≤ base → base ≤ 10 → num % base < 10
small_rem_10 num base lo hi = grind arith

div_halves : (num base p : ℕ) → 2 ≤ base → num < 2 * p → num / base < p
div_halves num base p h lt = grind (arith, div-add-mod num base)

digit-is_digit :
    (small : Bool) (num base : ℕ)
    → 2 ≤ base
    → base ≤ 10
    → is_digit (digit small (num % base)) ≡ true
digit-is_digit small num base lo ten =
    let r = small_rem_10 num base lo ten in rw (digit_decimal small (num % base) r) (ground arith)

-- In a base from 2 to 36, for a number below 2 ^ k and a `tmp` of `k` bytes or more, the digits
-- fit into `tmp`: there are at most `k`, they denote the number, and up to base 10 they are
-- decimal digits.
pub convert-value :
    (room k : ℕ) (small : Bool) (num base : ℕ)
    → 2 ≤ base
    → base ≤ 36
    → num < 2 ^ k
    → k ≤ room
    → (ds : Bytes) × (convert room small num base ≡ some ds)
      × (length ds ≤ k)
      × (value base ds ≡ num)
      × (base ≤ 10 → All (λ c. is_digit c ≡ true) ds)
unfolding convert value
convert-value zero zero small num base lo hi lt fits =
    let z : num ≡ 0 = omega arith in rw z ([], refl, omega arith, refl, λ ten. tt)
convert-value zero (suc k) small num base lo hi lt fits = absurd (omega arith)
convert-value (suc room) zero small num base lo hi lt fits =
    let z : num ≡ 0 = omega arith in rw z ([], refl, omega arith, refl, λ ten. tt)
convert-value (suc room) (suc k) small num base lo hi lt fits = elim (Bool-cases (num == 0)) [
  | inl e ↦ rw e ([], refl, omega arith, sym (==→eq num 0 e), λ ten. tt)
  | inr e ↦
      let (ds, c, short, v, dec) =
        convert-value room k small (num / base) base lo hi
          (div_halves num base (2 ^ k) lo (omega (arith, pow-suc 2 k))) (omega arith) in
      let value_step : digit_value (digit small (num % base)) + base * value base ds ≡ num =
        rw (v, digit_value-digit small (num % base) (small_rem num base lo hi))
          (omega (arith, div-add-mod num base)) in
      (
        digit small (num % base) ∷ ds,
        rw (e, c),
        omega arith,
        value_step,
        λ ten. (digit-is_digit small num base lo ten, dec ten),
      )
]
