-- ===== src/Printf/RoundTrip.antt =====
-- `skip_atoi` reads back what `number` prints in base 10.
use Prim.Native.Nat.{max}
use mathlib.Core.List.{reverse, reverse_aux}
use mockos.Prelude.{
  Bool-cases, inl, inr, if◌then◌else◌, leb, ap₂, ℕ, ◌+◌, ◌-◌, ◌*◌, ◌^◌, ◌<◌, ◌≡◌, refl, ap, ◌∙◌,
  arith, true, false, [], ◌∷◌, ◌++◌, some, All, replicate, length, Bool,
}
use mockos.Prelude.Int.{ℤ, negsuc}
use mockos.Printf.{Flags, Bytes, is_digit, skip_digits, skip_atoi, no_flags, number}
use mockos.Printf.Convert.{value, digit_value}
use mockos.Printf.Arrange.{IsField}
use mockos.Printf.Layout.{Written, sign_text, magnitude, magnitude_lt, number-Written}

-- The text goes on with no digit.
abbrev pub EndsNumber : Bytes → Type 0
EndsNumber [] = Unit
EndsNumber (c ∷ s) = is_digit c ≡ false

skip_digits-stop : (s : Bytes) (i : ℕ) → EndsNumber s → skip_digits s i ≡ (i, s)
unfolding skip_digits
skip_digits-stop [] i h = refl
skip_digits-stop (c ∷ s) i h = rw h

skip_digits-digit :
    (c i : ℕ) (s : Bytes)
    → is_digit c ≡ true
    → digit_value c + 10 * i < 2 ^ 32
    → skip_digits (c ∷ s) i ≡ skip_digits s (digit_value c + 10 * i)
unfolding skip_digits
skip_digits-digit c i s h lt = rw h (ap (λ j. skip_digits s j) (ground arith))

-- Reading the digits from the left leaves their value. `tail` are the digits before.
skip_digits-value :
    (ds s : Bytes)
    → All (λ c. is_digit c ≡ true) ds
    → value 10 ds < 2 ^ 32
    → skip_digits (reverse_aux ds s) 0 ≡ skip_digits s (value 10 ds)
unfolding value
skip_digits-value [] s h lt = refl
skip_digits-value (c ∷ ds) s h lt =
    skip_digits-value ds (c ∷ s) h.1 (omega arith) ∙ skip_digits-digit c (value 10 ds) s h.0 lt

reverse_aux-append : (ds r s : Bytes) → reverse_aux ds r ++ s ≡ reverse_aux ds (r ++ s)
reverse_aux-append [] r s = refl
reverse_aux-append (c ∷ ds) r s = reverse_aux-append ds (c ∷ r) s

-- The digits that `number` writes are read back as the argument without its sign.
pub digits-read :
    {num : ℕ} {size precision : ℤ} {type : Flags} {out ds : Bytes} (s : Bytes)
    → Written num 10 size precision type out ds
    → num < 2 ^ 32
    → EndsNumber s
    → skip_atoi (reverse ds ++ s) ≡ (magnitude type num, s)
unfolding skip_atoi
digits-read {num} {type} {ds} s w lt ends =
    ap (λ o. skip_digits o 0) (reverse_aux-append ds [] s)
    ∙ skip_digits-value ds s (w.decimal (omega arith))
        (omega (arith, w.denotes, magnitude_lt type num lt))
    ∙ ap (skip_digits s) w.denotes
    ∙ skip_digits-stop s (magnitude type num) ends

-- Without width, precision, padding and prefix only sign and digits are written.
pub plain-Written :
    {num : ℕ} {out ds : Bytes} (signed : Bool)
    → let type = record no_flags { sign = signed } in
      Written num 10 (negsuc 0) (negsuc 0) type out ds → out ≡ sign_text type num ++ reverse ds
plain-Written {num} {out} {ds} signed w =
    let sign = sign_text (record no_flags { sign = signed }) num in
    let none : max (length ds) 0 - length ds ≡ 0 = omega arith in
    let blank : 0 - (length sign + 0 + max (length ds) 0) ≡ 0 = omega arith in
    w.layout
    ∙ ap₂ (λ m n. replicate m b' ' ++ (sign ++ (replicate n b'0' ++ reverse ds))) blank none

default-IsField : IsField (negsuc 0) (negsuc 0)
default-IsField = record { width_int = omega arith; room = omega arith }

-- Every 32-bit number printed in base 10 with no flags, width or precision is read back by
-- `skip_atoi`, up to a byte that is no digit.
pub skip_atoi-number :
    (num : ℕ) (s : Bytes)
    → num < 2 ^ 32
    → EndsNumber s
    → (out : Bytes) × (number num 10 (negsuc 0) (negsuc 0) no_flags ≡ some out)
      × (skip_atoi (out ++ s) ≡ (num, s))
skip_atoi-number num s lt ends =
    let (out, ds, e, w) =
      number-Written num 10 (negsuc 0) (negsuc 0) no_flags lt (omega arith) (omega arith)
        default-IsField in
    (out, e, ap (λ o. skip_atoi (o ++ s)) (plain-Written false w) ∙ digits-read s w lt ends)

abbrev with_sign : Flags
with_sign = record no_flags { sign = true }

signed_head :
    (num : ℕ) (r : Bytes)
    → sign_text with_sign num ++ r ≡ (if leb (2 ^ 31) num then b'-' ∷ r else r)
signed_head num r = elim (Bool-cases (leb (2 ^ 31) num)) [ inl e ↦ rw e refl | inr e ↦ rw e refl ]

-- Every 32-bit number printed in base 10 with SIGN and no width or precision: from 2 ^ 31 on a
-- minus stands in front, and `skip_atoi` reads the digits back, up to a byte that is no digit, as
-- the number or as its two's complement.
pub skip_atoi-number_signed :
    (num : ℕ) (s : Bytes)
    → num < 2 ^ 32
    → EndsNumber s
    → (out ds : Bytes) × (number num 10 (negsuc 0) (negsuc 0) (record no_flags { sign = true })
        ≡ some out)
      × (out ≡ (if leb (2 ^ 31) num then b'-' ∷ ds else ds))
      × (skip_atoi (ds ++ s) ≡ (if leb (2 ^ 31) num then 2 ^ 32 - num else num, s))
skip_atoi-number_signed num s lt ends =
    let (out, ds, e, w) =
      number-Written num 10 (negsuc 0) (negsuc 0) with_sign lt (omega arith) (omega arith)
        default-IsField in
    (
      out,
      reverse ds,
      e,
      plain-Written true w ∙ signed_head num (reverse ds),
      digits-read s w lt ends,
    )
