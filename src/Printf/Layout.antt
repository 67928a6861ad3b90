-- ===== src/Printf/Layout.antt =====
-- What `number` writes: sign, prefix, zeros and digits, padded to the field's width.
use Prim.Native.Nat.{max}
use mathlib.Core.List.{reverse}
use mockos.Prelude.{
  ◌&&◌, if◌then◌else◌, leb, All, ℕ, ◌+◌, ◌-◌, ◌^◌, ◌<◌, ◌≤◌, ◌≡◌, ◌≢◌, refl, sym, ap, ◌∙◌, arith,
  ◌==◌, ◌||◌, not, ltb, Bool, true, false, [], ◌∷◌, some, length, length-replicate, length-reverse,
  replicate, inl, inr, Bool-cases, ==→eq,
}
use mockos.Prelude.Int.{ℤ, pos_part}
use mockos.Printf.{
  digit, is_digit, effective, digits_in, number_with, Bytes, Flags, if_bytes, sign_of, prefix,
  shrink, emit, number,
}
use mockos.Printf.Convert.{value, convert-value}
use mockos.Printf.Arrange.{arrange, length-arrange, IsField, emit-arrange}

-- The sign that is to stand in front, if any: a minus for a negative number with SIGN, else a plus with
-- PLUS, else a blank with SPACE.
abbrev pub sign_text : Flags → (num : ℕ) → Bytes
sign_text type num =
    if type.sign && leb (2 ^ 31) num
    then b'-' ∷ []
    else if type.plus
    then b'+' ∷ []
    else if type.space
    then b' ' ∷ []
    else []

-- The number that the digits are to denote: with SIGN the absolute value, else the 32 bits.
abbrev pub magnitude : Flags → (num : ℕ) → ℕ
magnitude type num = if type.sign && leb (2 ^ 31) num then 2 ^ 32 - num else num

-- With SPECIAL `0` in base 8, and `0x` or `0X` in base 16.
abbrev pub prefix_text : Flags → (base : ℕ) → Bytes
prefix_text type base =
    if type.special && base == 8
    then b'0' ∷ []
    else if type.special && base == 16
    then b'0' ∷ (if type.small then b'x' else b'X') ∷ []
    else []

-- The digits of `number`, the last first: they denote the argument without its sign, they fit into
-- `tmp`, and the field is laid out around them.
pub record Written (num base : ℕ) (size precision : ℤ) (type : Flags) (out ds : Bytes)
    : Type 0 where
  pub some_digit : 0 < length ds
  pub in_tmp : length ds ≤ 32
  pub decimal : base ≤ 10 → All (λ c. is_digit c ≡ true) ds
  pub denotes : value base ds ≡ magnitude type num
  pub layout :
      let n = max (length ds) (pos_part precision) in
      out
      ≡ arrange
          (type.zeropad && not type.left)
          type.left
          (sign_text type num)
          (prefix_text type base)
          (replicate (n - length ds) b'0')
          (reverse ds)
          (pos_part size - (length (sign_text type num) + length (prefix_text type base) + n))

sign_of-sign_text :
    (type : Flags) (num : ℕ)
    → (if_bytes (not ((sign_of type num).0 == 0)) ((sign_of type num).0 ∷ []) ≡ sign_text type num)
      × ((sign_of type num).1 ≡ magnitude type num)
unfolding sign_of
sign_of-sign_text type num = elim (Bool-cases (type.sign && leb (2 ^ 31) num)) [
  | inl e ↦ rw e (refl, refl)
  | inr e ↦ elim (Bool-cases type.plus) [
    | inl d ↦ rw (e, d) (refl, refl)
    | inr d ↦ elim (Bool-cases type.space) [
      | inl b ↦ rw (e, d, b) (refl, refl)
      | inr b ↦ rw (e, d, b) (refl, refl)
    ]
  ]
]

prefix-prefix_text : (type : Flags) (base : ℕ) → prefix type base ≡ prefix_text type base
unfolding prefix digit
prefix-prefix_text type base = elim (Bool-cases type.small) [
  | inl e ↦ rw e refl
  | inr e ↦ rw e refl
]

-- LEFT takes ZEROPAD away, and nothing else.
effective_parts :
    (type : Flags) (num base : ℕ)
    → ((effective type).zeropad ≡ (type.zeropad && not type.left))
      × ((effective type).left ≡ type.left)
      × (sign_text (effective type) num ≡ sign_text type num)
      × (prefix_text (effective type) base ≡ prefix_text type base)
      × (magnitude (effective type) num ≡ magnitude type num)
effective_parts type num base = elim (Bool-cases type.left) [
  | inl e ↦ elim (Bool-cases type.zeropad) [
    | inl d ↦ rw (e, d) (refl, refl, refl, refl, refl)
    | inr d ↦ rw (e, d) (refl, refl, refl, refl, refl)
  ]
  | inr e ↦ elim (Bool-cases type.zeropad) [
    | inl d ↦ rw (e, d) (refl, refl, refl, refl, refl)
    | inr d ↦ rw (e, d) (refl, refl, refl, refl, refl)
  ]
]

arrange-same :
    {z z' l l' : Bool} {s s' p p' : Bytes} (zeros digits : Bytes) (w n : ℕ)
    → z ≡ z'
    → l ≡ l'
    → s ≡ s'
    → p ≡ p'
    → arrange z l s p zeros digits (w - (length s + length p + n))
      ≡ arrange z' l' s' p' zeros digits (w - (length s' + length p' + n))
arrange-same zeros digits w n a b c d = rw (a, b, c, d) refl

pub magnitude_lt : (type : Flags) (num : ℕ) → num < 2 ^ 32 → magnitude type num < 2 ^ 32
magnitude_lt type num lt = ground arith

some_length : (base num : ℕ) (ds : Bytes) → value base ds ≡ num → num ≢ 0 → 0 < length ds
unfolding value
some_length base num [] v ne = absurd (ne (sym v))
some_length base num (d ∷ ds) v ne = omega arith

digits_of :
    (small : Bool) (num base : ℕ)
    → 2 ≤ base
    → base ≤ 36
    → num < 2 ^ 32
    → (ds : Bytes) × (digits_in small num base ≡ some ds)
      × (0 < length ds)
      × (length ds ≤ 32)
      × (value base ds ≡ num)
      × (base ≤ 10 → All (λ c. is_digit c ≡ true) ds)
unfolding value
digits_of small num base lo hi lt = elim (Bool-cases (num == 0)) [
  | inl e ↦
      rw e
        (b'0' ∷ [], refl, omega arith, omega arith, omega (arith, ==→eq num 0 e), λ ten. (refl, tt))
  | inr e ↦
      let (ds, c, short, v, dec) = convert-value 36 32 small num base lo hi lt (omega arith) in
      rw e (ds, c, some_length base num ds v (λ z. ground arith), short, v, dec)
]

-- What `number_with` writes from the flags that `number` gives it.
number_with-Written :
    (num base : ℕ) (size precision : ℤ) (type : Flags)
    → num < 2 ^ 32
    → 2 ≤ base
    → base ≤ 36
    → IsField size precision
    → (out : Bytes) × (ds : Bytes) × (number_with num base size precision (effective type)
        ≡ some out)
      × Written num base size precision type out ds
unfolding number_with
number_with-Written num base size precision type lt lo hi field =
    let t = effective type in
    let sign = (sign_of t num).0 in
    let (z, l, st, pt, mt) = effective_parts type num base in
    let (sb, mb) = sign_of-sign_text t num in
    let small : (sign_of t num).1 < 2 ^ 32 = omega (arith, mb ∙ mt, magnitude_lt type num lt) in
    let (ds, e, some_digit, fits, v, dec) = digits_of t.small (sign_of t num).1 base lo hi small in
    let n = max (length ds) (pos_part precision) in
    let in_range : (ltb base 2 || ltb 36 base) ≡ false = ground arith in
    (
      emit t sign (prefix t base) ds (shrink t sign base size) precision,
      ds,
      rw (in_range, e) refl,
      record {
        some_digit = some_digit;
        in_tmp = fits;
        decimal = dec;
        denotes = v ∙ mb ∙ mt;
        layout =
            emit-arrange t sign base ds size precision field fits
            ∙ arrange-same (replicate (n - length ds) b'0') (reverse ds) (pos_part size) n z l
                (sb ∙ st) (prefix-prefix_text t base ∙ pt);
      },
    )

-- For every 32-bit argument, every base from 2 to 36, all flags, and a width and a precision that
-- keep 37 or more away from -2 ^ 31 (`IsField`), so that no `int` wraps: `number` writes a sign, a prefix, zeros up to the precision and the digits of the
-- argument without its sign, at most 32, so that they fit into the 36 bytes of `tmp`. The rest of the
-- width is filled with blanks behind them with LEFT, else with zeros in front of the zeros with ZEROPAD, else
-- with blanks in front of it all. The sign is a minus for a negative argument with SIGN, else a plus
-- with PLUS, else a blank with SPACE; the prefix is `0` in base 8 and `0x` or `0X` in base 16, with SPECIAL.
pub number-Written :
    (num base : ℕ) (size precision : ℤ) (type : Flags)
    → num < 2 ^ 32
    → 2 ≤ base
    → base ≤ 36
    → IsField size precision
    → (out : Bytes) × (ds : Bytes) × (number num base size precision type ≡ some out)
      × Written num base size precision type out ds
unfolding number
number-Written num base size precision type = number_with-Written num base size precision type

length-Written :
    {num base : ℕ} {size precision : ℤ} {type : Flags} {out ds : Bytes}
    → Written num base size precision type out ds
    → length out
      ≡ max (pos_part size) (
          length (sign_text type num)
          + length (prefix_text type base)
          + max (length ds) (pos_part precision))
length-Written {num} {base} {size} {precision} {type} {out} {ds} w =
    let n = max (length ds) (pos_part precision) in
    ap length w.layout
    ∙ length-arrange (type.zeropad && not type.left) type.left (sign_text type num)
        (prefix_text type base) (replicate (n - length ds) b'0') (reverse ds)
        (pos_part size - (length (sign_text type num) + length (prefix_text type base) + n))
    ∙ omega (arith, length-reverse ds, length-replicate {A = ℕ} (n - length ds) b'0')

-- For every 32-bit argument, base from 2 to 36, flags, and a width and a precision that keep 37 or
-- more away from -2 ^ 31 (`IsField`), so that no `int` wraps: what `number` writes is as long as the width, or as sign, prefix and digits, at least as many
-- as the precision, if these are more.
pub length-number :
    (num base : ℕ) (size precision : ℤ) (type : Flags)
    → num < 2 ^ 32
    → 2 ≤ base
    → base ≤ 36
    → IsField size precision
    → (out : Bytes) × (ds : Bytes) × (number num base size precision type ≡ some out)
      × (value base ds ≡ magnitude type num)
      × (length out
          ≡ max (pos_part size) (
              length (sign_text type num)
              + length (prefix_text type base)
              + max (length ds) (pos_part precision)))
length-number num base size precision type lt lo hi field =
    let (out, ds, e, w) = number-Written num base size precision type lt lo hi field in
    (out, ds, e, w.denotes, length-Written w)
