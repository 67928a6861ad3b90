-- ===== src/Printf/Format.antt =====
-- `vsprintf` of kernel/vsprintf.c. The format is the list of its bytes before the NUL, and the
-- arguments are a list.
use mockos.Prelude.{
  ℕ, ◌==◌, ◌||◌, Bool, false, true, List, [], ◌∷◌, Option, none, some, if◌then◌else◌,
}
use mockos.Prelude.Int.{ℤ, pos, negsuc, sub_int, ltb_ℤ, signed32}
use mockos.Printf.{Bytes, is_digit, skip_atoi, Flags, no_flags}

-- A word of 32 bits, a text that a `char *` points to, or the address of an `int` for %n.
pub data Arg : Type 0 where
  word : ℕ → Arg
  text : Bytes → Arg
  cell : ℕ → Arg

-- What is written, and the stores through %n as pairs of an address and a count.
pub record Output : Type 0 where
  pub out : Bytes
  pub stores : List (ℕ × ℕ)

-- `stuck`: an argument is missing or is not what the conversion reads, which C leaves undefined.
pub data Printed : Type 0 where
  done : Output → Printed
  stuck : Printed
  out_of_fuel : Printed

-- The `switch` on a flag, which goes to `repeat`.
unfoldable pub set_flag : ℕ → Flags → Option Flags
set_flag c f =
    if c == b'-'
    then some (record f { left = true })
    else if c == b'+'
    then some (record f { plus = true })
    else if c == b' '
    then some (record f { space = true })
    else if c == b'#'
    then some (record f { special = true })
    else if c == b'0'
    then some (record f { zeropad = true })
    else none

unfoldable pub read_flags : Bytes → Flags → Flags × Bytes
read_flags [] f = (f, [])
read_flags (c ∷ s) f = elim (set_flag c f) [ none ↦ (f, c ∷ s) | some f' ↦ read_flags s f' ]

-- `va_arg(args, int)`
abbrev pub next_int : List Arg → Option (ℤ × List Arg)
next_int [] = none
next_int (word w ∷ args) = some (signed32 w, args)
next_int (text _ ∷ args) = none
next_int (cell _ ∷ args) = none

abbrev pub first_is : (ℕ → Bool) → Bytes → Bool
first_is p [] = false
first_is p (c ∷ s) = p c

-- What is left to read, and the directive so far.
pub record Directive : Type 0 where
  pub fmt : Bytes
  pub args : List Arg
  pub flags : Flags
  pub width : ℤ
  pub precision : ℤ

-- The field's width. At `*` the byte is not skipped.
unfoldable pub read_width : Bytes → List Arg → Flags → Option Directive
read_width s args f =
    let (n, s') = skip_atoi s in
    let start : Directive = record {
      fmt = s;
      args = args;
      flags = f;
      width = negsuc 0;
      precision = negsuc 0;
    } in
    if first_is is_digit s
    then some (record start { fmt = s'; width = signed32 n })
    else if first_is (λ c. c == b'*') s
    then elim (next_int args) [
      | none ↦ none
      | some (w, args') ↦ some (
          if ltb_ℤ w (pos 0)
          then record start {
            args = args';
            width = sub_int (pos 0) w;
            flags = record f { left = true };
          }
          else record start { args = args'; width = w })
    ]
    else some start

abbrev pub not_below_zero : ℤ → ℤ
not_below_zero p = if ltb_ℤ p (pos 0) then pos 0 else p

abbrev pub rest : Bytes → Bytes
rest [] = []
rest (c ∷ s) = s

-- The precision, behind a point. At `*` the byte is not skipped here either.
unfoldable pub read_precision : Directive → Option Directive
read_precision d =
    let s = rest d.fmt in
    let (n, s') = skip_atoi s in
    if first_is (λ c. c == b'.') d.fmt
    then if first_is is_digit s
      then some (record d { fmt = s'; precision = not_below_zero (signed32 n) })
      else if first_is (λ c. c == b'*') s
      then elim (next_int d.args) [
        | none ↦ none
        | some (p, args') ↦ some (record d { fmt = s; args = args'; precision = not_below_zero p })
      ]
      else some (record d { fmt = s; precision = pos 0 })
    else some d

-- The qualifier is skipped, and not used.
unfoldable pub read_qualifier : Directive → Directive
read_qualifier d =
    if first_is (λ c. c == b'h' || c == b'l' || c == b'L') d.fmt
    then record d { fmt = rest d.fmt }
    else d

unfoldable pub read_behind : Directive → Option Directive
read_behind d = elim (read_precision d) [ none ↦ none | some d' ↦ some (read_qualifier d') ]

-- Flags, width, precision and qualifier, from the byte behind the `%` on.
unfoldable pub read_directive : Bytes → List Arg → Option Directive
read_directive s args =
    let (f, s') = read_flags s no_flags in
    elim (read_width s' args f) [ none ↦ none | some d ↦ read_behind d ]
