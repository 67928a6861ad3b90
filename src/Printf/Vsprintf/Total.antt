-- ===== src/Printf/Vsprintf/Total.antt =====
-- `vsprintf` ends: each round of its loop consumes at least one byte of the format.
use mockos.Prelude.{
  ℕ, zero, suc, ◌+◌, ◌-◌, ◌*◌, ◌%◌, ◌^◌, ◌<◌, ◌≤◌, ◌≡◌, ◌≢◌, refl, arith, List, [], ◌∷◌, Option,
  none, some, length, inl, inr, Option-cases,
}
use mockos.Printf.{Bytes, skip_digits, skip_atoi, Flags, no_flags}
use mockos.Printf.Format.{
  Arg, Output, out_of_fuel, Directive, set_flag, read_flags, read_width, read_precision,
  read_qualifier, read_behind, read_directive, rest,
}
use mockos.Printf.Vsprintf.{finish, round, run, vsprintf}

length-skip_digits : (s : Bytes) (i : ℕ) → length (skip_digits s i).1 ≤ length s
unfolding skip_digits
length-skip_digits [] i = omega arith
length-skip_digits (c ∷ s) i = ground (arith, length-skip_digits s ((i * 10 + c - b'0') % 2 ^ 32))

length-skip_atoi : (s : Bytes) → length (skip_atoi s).1 ≤ length s
unfolding skip_atoi
length-skip_atoi s = length-skip_digits s 0

length-read_flags : (s : Bytes) (f : Flags) → length (read_flags s f).1 ≤ length s
unfolding read_flags
length-read_flags [] f = omega arith
length-read_flags (c ∷ s) f = elim (Option-cases (set_flag c f)) [
  | inl e ↦ rw (e, length, read_flags) (omega arith)
  | inr (f', e) ↦ rw (e, length, read_flags) (omega (arith, length-read_flags s f'))
]

length-rest : (s : Bytes) → length (rest s) ≤ length s
length-rest [] = omega arith
length-rest (c ∷ s) = omega arith

length-read_width :
    (s : Bytes) (args : List Arg) (f : Flags) {d : Directive}
    → read_width s args f ≡ some d
    → length d.fmt ≤ length s
unfolding read_width
length-read_width s args f e = ground (arith, length-skip_atoi s)

length-read_precision :
    (d : Directive) {d' : Directive} → read_precision d ≡ some d' → length d'.fmt ≤ length d.fmt
unfolding read_precision
length-read_precision d e = ground (arith, length-rest d.fmt, length-skip_atoi (rest d.fmt))

length-read_qualifier : (d : Directive) → length (read_qualifier d).fmt ≤ length d.fmt
unfolding read_qualifier
length-read_qualifier d = ground (arith, length-rest d.fmt)

length-read_behind :
    (d : Directive) {d' : Directive} → read_behind d ≡ some d' → length d'.fmt ≤ length d.fmt
unfolding read_behind
length-read_behind d e = grind (arith, length-read_precision, length-read_qualifier)

length-behind :
    (n : ℕ) (r : Option Directive) {d' : Directive}
    → ((d : Directive) → r ≡ some d → length d.fmt ≤ n)
    → elim r as (λ _. Option Directive) [ none ↦ none | some d ↦ read_behind d ] ≡ some d'
    → length d'.fmt ≤ n
length-behind n none small e = absurd (cc e)
length-behind n (some d) small e = omega (arith, small d refl, length-read_behind d e)

-- Reading a directive moves only forward in the format.
pub length-read_directive :
    (s : Bytes) (args : List Arg) {d : Directive}
    → read_directive s args ≡ some d
    → length d.fmt ≤ length s
unfolding read_directive
length-read_directive s args e =
    let (f, s') = read_flags s no_flags in
    omega (
      arith,
      length-read_flags s no_flags,
      length-behind (length s') (read_width s' args f) (λ d. length-read_width s' args f) e,
    )

length-finish :
    (d : Directive) (s : Bytes) (o : Output) {o' : Output} {args : List Arg} {s' : Bytes}
    → finish d s o ≡ some (o', args, s')
    → length s' ≤ length s
unfolding finish
length-finish d [] o e = ground arith
length-finish d (c ∷ s) o e = ground arith

-- A round leaves no more of the format than what stood behind its first byte.
pub length-round :
    (c : ℕ) (s : Bytes) (args : List Arg) (o : Output) {o' : Output} {args' : List Arg} {s' : Bytes}
    → round c s args o ≡ some (o', args', s')
    → length s' ≤ length s
unfolding round
length-round c s args o e = grind (arith, length-read_directive, length-finish)

run-ne-out_of_fuel :
    (fuel : ℕ) (s : Bytes) (args : List Arg) (o : Output)
    → length s < fuel
    → run fuel s args o ≢ out_of_fuel
unfolding run
run-ne-out_of_fuel zero s args o lt = absurd (omega arith)
run-ne-out_of_fuel (suc fuel) [] args o lt = λ e. cc
run-ne-out_of_fuel (suc fuel) (c ∷ s) args o lt = elim (Option-cases (round c s args o)) [
  | inl e ↦ rw (e, run) (λ q. cc)
  | inr ((o', args', s'), e) ↦
      rw (e, run) (run-ne-out_of_fuel fuel s' args' o' (omega (arith, length-round c s args o e)))
]

-- `vsprintf` ends for every format and all arguments.
pub vsprintf-ne-out_of_fuel : (fmt : Bytes) (args : List Arg) → vsprintf fmt args ≢ out_of_fuel
unfolding vsprintf
vsprintf-ne-out_of_fuel fmt args =
    run-ne-out_of_fuel (length fmt + 1) fmt args (record { out = []; stores = [] }) (omega arith)

-- Fuel beyond what the format needs changes nothing.
run_more :
    (fuel more : ℕ) (s : Bytes) (args : List Arg) (o : Output)
    → length s < fuel
    → length s < more
    → run fuel s args o ≡ run more s args o
unfolding run
run_more zero more s args o lt lt' = absurd (omega arith)
run_more (suc fuel) zero s args o lt lt' = absurd (omega arith)
run_more (suc fuel) (suc more) [] args o lt lt' = refl
run_more (suc fuel) (suc more) (c ∷ s) args o lt lt' = elim (Option-cases (round c s args o)) [
  | inl e ↦ rw (e, run) refl
  | inr ((o', args', s'), e) ↦
      let short = length-round c s args o e in
      rw (e, run) (run_more fuel more s' args' o' (omega (arith, short)) (omega (arith, short)))
]

-- With enough fuel a step of `run` is a round and what it leaves.
pub run-round :
    (c : ℕ) (s : Bytes) (args : List Arg) (o : Output) {o' : Output} {args' : List Arg} {s' : Bytes}
    → round c s args o ≡ some (o', args', s')
    → run (length (c ∷ s) + 1) (c ∷ s) args o ≡ run (length s' + 1) s' args' o'
unfolding run
run-round c s args o {o'} {args'} {s'} e =
    let short = length-round c s args o e in
    let one : length (c ∷ s) + 1 ≡ suc (length s + 1) = omega arith in
    rw (one, e, run)
      (run_more (length s + 1) (length s' + 1) s' args' o' (omega (arith, short)) (omega arith))
