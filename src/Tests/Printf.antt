-- ===== src/Tests/Printf.antt =====
-- kernel/vsprintf.c at concrete formats and arguments.
use Prim.Native.Nat.{max}
use mockos.Prelude.{
  ◌+◌, ◌-◌, ◌^◌, ◌≡◌, ◌≢◌, refl, arith, leb, true, [], ◌∷◌, length, some, if◌then◌else◌,
}
use mockos.Prelude.Int.{sub_int, pos_part, pos, negsuc}
use mockos.Printf.{digit, skip_digits, Bytes, codes, no_flags, Flags, convert, skip_atoi, number}
use mockos.Printf.Convert.{value}
use mockos.Printf.Arrange.{IsField}
use mockos.Printf.Layout.{magnitude, sign_text, prefix_text, Written, number-Written, length-number}
use mockos.Printf.Format.{word, text, done, out_of_fuel}
use mockos.Printf.Vsprintf.{vsprintf}
use mockos.Printf.Vsprintf.Total.{vsprintf-ne-out_of_fuel}
use mockos.Printf.Vsprintf.Text.{vsprintf_star, vsprintf_decimal}

abbrev zero_padded : Flags
zero_padded = record no_flags { zeropad = true; special = true; small = true }

reads_number : skip_atoi (codes "1234x") ≡ (1234, codes "x")
unfolding skip_atoi skip_digits
reads_number = refl

converts : convert 36 true 0xbeef 16 ≡ some (codes "feeb")
unfolding convert digit
converts = refl

wide-IsField : IsField (pos 10) (negsuc 0)
wide-IsField = record { width_int = omega arith; room = omega arith }

number-Written_example :
    (out : Bytes) × (ds : Bytes) × (number 0xbeef 16 (pos 10) (negsuc 0) zero_padded ≡ some out)
    × Written 0xbeef 16 (pos 10) (negsuc 0) zero_padded out ds
number-Written_example =
    number-Written 0xbeef 16 (pos 10) (negsuc 0) zero_padded (omega arith) (omega arith)
      (omega arith) wide-IsField

length-number_example :
    (out : Bytes) × (ds : Bytes) × (number 0xbeef 16 (pos 10) (negsuc 0) zero_padded ≡ some out)
    × (value 16 ds ≡ magnitude zero_padded 0xbeef)
    × (length out
        ≡ max (pos_part (pos 10)) (
            length (sign_text zero_padded 0xbeef)
            + length (prefix_text zero_padded 16)
            + max (length ds) (pos_part (negsuc 0))))
length-number_example =
    length-number 0xbeef 16 (pos 10) (negsuc 0) zero_padded (omega arith) (omega arith)
      (omega arith) wide-IsField

-- A width of -2 ^ 31 wraps behind one digit.
width_wraps : sub_int (negsuc (2 ^ 31 - 1)) (pos 1) ≡ pos (2 ^ 31 - 1)
width_wraps = refl

vsprintf-ne-out_of_fuel_example :
    vsprintf (codes "%-8s|%x") (text (codes "ab") ∷ word 255 ∷ []) ≢ out_of_fuel
vsprintf-ne-out_of_fuel_example =
    vsprintf-ne-out_of_fuel (codes "%-8s|%x") (text (codes "ab") ∷ word 255 ∷ [])

vsprintf_decimal_example :
    (t ds : Bytes) × (vsprintf (codes "%d") (word 0xffff_ffd6 ∷ [])
      ≡ done (record { out = t; stores = [] }))
    × (t ≡ (if leb (2 ^ 31) 0xffff_ffd6 then b'-' ∷ ds else ds))
    × (skip_atoi ds ≡ (if leb (2 ^ 31) 0xffff_ffd6 then 2 ^ 32 - 0xffff_ffd6 else 0xffff_ffd6, []))
vsprintf_decimal_example = vsprintf_decimal 0xffff_ffd6 (omega arith)

vsprintf_star_example :
    vsprintf (codes "%*d") (word 5 ∷ word 42 ∷ [])
    ≡ done (record { out = codes "%*d"; stores = [] })
vsprintf_star_example = vsprintf_star 5 (word 42 ∷ [])
