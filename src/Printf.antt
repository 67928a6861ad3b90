-- ===== src/Printf.antt =====
-- kernel/vsprintf.c: `skip_atoi`, `number` and, in a child, `vsprintf`. A text is the list of its
-- bytes before the NUL.
pub mod Arrange
pub mod Convert
pub mod Format
pub mod Layout
pub mod RoundTrip
pub mod Vsprintf
use Prim.Native.Char.{code}
use Prim.Native.String
use Prim.Native.String.{String}
use mockos.Prelude.{
  ℕ, zero, suc, ◌+◌, ◌-◌, ◌*◌, ◌/◌, ◌%◌, ◌^◌, ◌==◌, ◌&&◌, ◌||◌, not, leb, ltb, Bool, false, true,
  List, [], ◌∷◌, ◌++◌, Option, none, some, if◌then◌else◌, length, replicate,
}
use mathlib.Core.List.{reverse}
use mockos.Prelude.Int.{ℤ, pos, negsuc, ◌-ℤ◌, sub_int, ltb_ℤ}

abbrev pub Bytes : Type 0
Bytes = List ℕ

-- The bytes of an ASCII literal.
abbrev pub codes : String → Bytes
codes String.[] = []
codes (String.◌∷◌ c s) = code c ∷ codes s

abbrev pub is_digit : ℕ → Bool
is_digit c = leb b'0' c && leb c b'9'

-- `i` is an `int`; a sum past 32 bits keeps its low bits.
unfoldable pub skip_digits : Bytes → ℕ → ℕ × Bytes
skip_digits [] i = (i, [])
skip_digits (c ∷ s) i =
    let rest = skip_digits s ((i * 10 + c - b'0') % 2 ^ 32) in
    if is_digit c then rest else (i, c ∷ s)

unfoldable pub skip_atoi : Bytes → ℕ × Bytes
skip_atoi s = skip_digits s 0

-- The bits ZEROPAD, SIGN, PLUS, SPACE, LEFT, SPECIAL and SMALL.
pub record Flags : Type 0 where
  pub zeropad : Bool
  pub sign : Bool
  pub plus : Bool
  pub space : Bool
  pub left : Bool
  pub special : Bool
  pub small : Bool

abbrev pub no_flags : Flags
no_flags = record {
  zeropad = false;
  sign = false;
  plus = false;
  space = false;
  left = false;
  special = false;
  small = false;
}

abbrev get_or : Bytes → ℕ → ℕ
get_or [] i = 0
get_or (x ∷ xs) zero = x
get_or (x ∷ xs) (suc i) = get_or xs i

-- digits[d]
unfoldable pub digit : Bool → ℕ → ℕ
digit small d =
    get_or
      (if small
        then codes "0123456789abcdefghijklmnopqrstuvwxyz"
        else codes "0123456789ABCDEFGHIJKLMNOPQRSTUVWXYZ")
      d

-- while (num != 0) tmp[i++] = digits[do_div(num, base)]: the last digit first. There is one round
-- for each byte of `tmp[36]`; `none` is a write past its end. `do_div` divides without sign.
unfoldable pub convert : ℕ → (small : Bool) (num base : ℕ) → Option Bytes
convert zero small num base = if num == 0 then some [] else none
convert (suc room) small num base =
    let rest = convert room small (num / base) base in
    if num == 0
    then some []
    else elim rest [ none ↦ none | some ds ↦ some (digit small (num % base) ∷ ds) ]

-- while (size-- > 0) *str++ = c: what is written, and what `size` is afterwards. It is an `int`, and
-- below -2 ^ 31 it goes on from 2 ^ 31 - 1 down.
abbrev pub fill_to : ℕ → ℤ → Bytes × ℤ
fill_to c (pos n) = (replicate n c, negsuc 0)
fill_to c (negsuc n) = ([], sub_int (negsuc n) (pos 1))

abbrev pub if_bytes : Bool → Bytes → Bytes
if_bytes b s = if b then s else []

-- The sign's byte, or 0 for none, and the number without it.
unfoldable pub sign_of : Flags → ℕ → ℕ × ℕ
sign_of type num =
    if type.sign && leb (2 ^ 31) num
    then (b'-', 2 ^ 32 - num)
    else (if type.plus then b'+' else if type.space then b' ' else 0, num)

unfoldable pub prefix : Flags → ℕ → Bytes
prefix type base =
    if type.special && base == 8
    then b'0' ∷ []
    else if type.special && base == 16
    then b'0' ∷ digit type.small 33 ∷ []
    else []

-- `size` less the bytes of the sign and the prefix
unfoldable pub shrink : Flags → (sign base : ℕ) → ℤ → ℤ
shrink type sign base size =
    let size₁ = if sign == 0 then size else sub_int size (pos 1) in
    if type.special && base == 16
    then sub_int size₁ (pos 2)
    else if type.special && base == 8
    then sub_int size₁ (pos 1)
    else size₁

-- The three loops on `size`, and what is written between them.
unfoldable pub place : (zeropad left : Bool) (sign before zeros digits : Bytes) → ℤ → Bytes
place zeropad left sign before zeros digits size =
    let c = if zeropad then b'0' else b' ' in
    let (blanks, size₁) = if zeropad || left then ([], size) else fill_to b' ' size in
    let (fills, size₂) = if left then ([], size₁) else fill_to c size₁ in
    let (tail, _) = fill_to b' ' size₂ in
    blanks ++ (sign ++ (before ++ (fills ++ (zeros ++ (digits ++ tail)))))

-- `if (i > precision) precision = i`
abbrev pub at_least : ℕ → ℤ → ℤ
at_least i precision = if ltb_ℤ precision (pos i) then pos i else precision

-- From there on, with the digits in `tmp` (the last first).
unfoldable pub emit : Flags → (sign : ℕ) (before tmp : Bytes) (size precision : ℤ) → Bytes
emit type sign before tmp size precision =
    let i = length tmp in
    let precision' = at_least i precision in
    let (zeros, _) = fill_to b'0' (precision' -ℤ pos i) in
    place type.zeropad type.left (if_bytes (not (sign == 0)) (sign ∷ [])) before zeros (reverse tmp)
      (sub_int size precision')

-- LEFT takes ZEROPAD away.
abbrev pub effective : Flags → Flags
effective type = if type.left then record type { zeropad = false } else type

abbrev pub digits_in : (small : Bool) (num base : ℕ) → Option Bytes
digits_in small num base = if num == 0 then some (b'0' ∷ []) else convert 36 small num base

unfoldable pub number_with : (num base : ℕ) (size precision : ℤ) → Flags → Option Bytes
number_with num base size precision type =
    let (sign, num') = sign_of type num in
    if ltb base 2 || ltb 36 base then none else elim (digits_in type.small num' base) [
      | none ↦ none
      | some ds ↦ some (emit type sign (prefix type base) ds (shrink type sign base size) precision)
    ]

-- `num` is the 32-bit pattern of the argument; `none` stands for the null pointer.
unfoldable pub number : (num base : ℕ) (size precision : ℤ) → Flags → Option Bytes
number num base size precision type = number_with num base size precision (effective type)
