-- ===== src/Printf/Vsprintf.antt =====
-- The conversions and the loop of `vsprintf` (kernel/vsprintf.c).
pub mod Text
pub mod Total
use mockos.Prelude.{
  ℕ, zero, suc, ◌+◌, ◌-◌, ◌%◌, ◌==◌, ◌&&◌, ◌||◌, not, ltb, Bool, false, true, List, [], ◌∷◌, ◌++◌,
  Option, none, some, if◌then◌else◌, length, replicate, take,
}
use mockos.Prelude.Int.{ℤ, pos, negsuc, pos_part, sub_int, ltb_ℤ}
use mockos.Printf.{Bytes, Flags, number}
use mockos.Printf.Format.{
  Arg, word, text, cell, Output, Printed, done, stuck, out_of_fuel, Directive, rest, read_directive,
}

abbrev pub write : Bytes → Output → Output
write s o = record o { out = o.out ++ s }

-- What a conversion leaves: the output, and the arguments still to read. `none` is undefined.
abbrev pub Result : Type 0
Result = Option (Output × List Arg)

-- while (--field_width > 0) *str++ = ' '
abbrev pub fill_before : ℤ → Bytes × ℤ
fill_before w = elim (sub_int w (pos 1)) [
  | pos m ↦ (replicate m b' ', pos 0)
  | negsuc n ↦ ([], negsuc n)
]

abbrev pub write_char : Directive → ℕ → Bytes
write_char d c =
    let (blanks, w) = if d.flags.left then ([], d.width) else fill_before d.width in
    let (tail, _) = fill_before w in blanks ++ (c % 256 ∷ tail)

unfoldable pub convert_char : Directive → List Arg → Output → Result
convert_char d [] o = none
convert_char d (word c ∷ args) o = some (write (write_char d c) o, args)
convert_char d (text _ ∷ args) o = none
convert_char d (cell _ ∷ args) o = none

-- while (len < field_width--) *str++ = ' '
abbrev pub fill_past : (len : ℕ) → ℤ → Bytes × ℤ
fill_past len w =
    if ltb_ℤ (pos len) w
    then (replicate (pos_part w - len) b' ', sub_int (pos len) (pos 1))
    else ([], sub_int w (pos 1))

-- how many bytes of the text are written
abbrev pub text_length : ℤ → Bytes → ℕ
text_length (pos p) s = if ltb p (length s) then p else length s
text_length (negsuc p) s = length s

abbrev pub write_text : Directive → Bytes → Bytes
write_text d s =
    let len = text_length d.precision s in
    let (blanks, w) = if d.flags.left then ([], d.width) else fill_past len d.width in
    let (tail, _) = fill_past len w in blanks ++ (take len s ++ tail)

unfoldable pub convert_text : Directive → List Arg → Output → Result
convert_text d [] o = none
convert_text d (word _ ∷ args) o = none
convert_text d (text s ∷ args) o = some (write (write_text d s) o, args)
convert_text d (cell _ ∷ args) o = none

-- What `number` wrote; its null pointer would be written through.
abbrev pub append_number : Option Bytes → List Arg → Output → Result
append_number none args o = none
append_number (some s) args o = some (write s o, args)

unfoldable pub convert_number : (base : ℕ) → Directive → List Arg → Output → Result
convert_number base d [] o = none
convert_number base d (word n ∷ args) o =
    append_number (number n base d.width d.precision d.flags) args o
convert_number base d (text _ ∷ args) o = none
convert_number base d (cell _ ∷ args) o = none

-- *ip = str - buf
unfoldable pub convert_count : List Arg → Output → Result
convert_count [] o = none
convert_count (word _ ∷ args) o = none
convert_count (text _ ∷ args) o = none
convert_count (cell p ∷ args) o = some (record o { stores = (p, length o.out) ∷ o.stores }, args)

abbrev pub pointer : Directive → Directive
pointer d =
    if ltb_ℤ d.width (pos 0) && not (ltb_ℤ d.width (negsuc 0))
    then record d { width = pos 8; flags = record d.flags { zeropad = true } }
    else d

abbrev pub small : Directive → Directive
small d = record d { flags = record d.flags { small = true } }

abbrev pub signed : Directive → Directive
signed d = record d { flags = record d.flags { sign = true } }

-- The `switch` on the conversion's byte.
unfoldable pub convert_one : (c : ℕ) → Directive → Output → Result
convert_one c d o =
    if c == b'c'
    then convert_char d d.args o
    else if c == b's'
    then convert_text d d.args o
    else if c == b'o'
    then convert_number 8 d d.args o
    else if c == b'p'
    then convert_number 16 (pointer d) d.args o
    else if c == b'x'
    then convert_number 16 (small d) d.args o
    else if c == b'X'
    then convert_number 16 d d.args o
    else if c == b'd' || c == b'i'
    then convert_number 10 (signed d) d.args o
    else if c == b'u'
    then convert_number 10 d d.args o
    else if c == b'n'
    then convert_count d.args o
    else some (write (if c == b'%' then c ∷ [] else b'%' ∷ c ∷ []) o, d.args)

-- The `++fmt` of the loop, behind the conversion's byte.
abbrev pub and_next : Result → Bytes → Option (Output × List Arg × Bytes)
and_next none s = none
and_next (some (o, args)) s = some (o, args, s)

-- A directive, from behind its `%`; with no byte left, `--fmt` lets the loop end.
unfoldable pub finish : Directive → Bytes → Output → Option (Output × List Arg × Bytes)
finish d [] o = some (write (b'%' ∷ []) o, d.args, [])
finish d (c ∷ s) o = and_next (convert_one c d o) s

-- One round of the loop at the byte `c`: the new output, and the arguments and bytes that are left.
unfoldable pub round : (c : ℕ) → Bytes → List Arg → Output → Option (Output × List Arg × Bytes)
round c s args o =
    if c == b'%'
    then elim (read_directive s args) [ none ↦ none | some d ↦ finish d d.fmt o ]
    else some (write (c ∷ []) o, args, s)

unfoldable pub run : ℕ → Bytes → List Arg → Output → Printed
run zero fmt args o = out_of_fuel
run (suc fuel) [] args o = done o
run (suc fuel) (c ∷ s) args o = elim (round c s args o) [
  | none ↦ stuck
  | some (o', args', s') ↦ run fuel s' args' o'
]

-- The NUL behind the output is not kept; the result of the C function is the output's length.
unfoldable pub vsprintf : Bytes → List Arg → Printed
vsprintf fmt args = run (length fmt + 1) fmt args (record { out = []; stores = [] })
