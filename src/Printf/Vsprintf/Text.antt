-- ===== src/Printf/Vsprintf/Text.antt =====
-- What `vsprintf` writes for plain text and for the decimal conversions, and the star.
use mathlib.Core.List.{append-nil, append_assoc}
use mockos.Prelude.{
  Bool-cases, inl, inr, ℕ, ◌+◌, ◌-◌, ◌^◌, ◌<◌, ◌≡◌, ◌≢◌, refl, sym, ap, ◌∙◌, arith, leb, true, List,
  [], ◌∷◌, ◌++◌, some, if◌then◌else◌, length, All,
}
use mockos.Prelude.Int.{pos, signed32, ltb_ℤ, negsuc}
use mockos.Printf.{Bytes, codes, no_flags, skip_atoi, number}
use mockos.Printf.RoundTrip.{skip_atoi-number_signed}
use mockos.Printf.Format.{
  next_int, Arg, word, Output, done, set_flag, read_flags, read_width, read_precision,
  read_qualifier, read_behind, read_directive,
}
use mockos.Printf.Vsprintf.{
  and_next, append_number, write, convert_number, convert_one, finish, round, run, vsprintf,
}
use mockos.Printf.Vsprintf.Total.{run-round}

abbrev pub start : Output
start = record { out = []; stores = [] }

round-plain :
    (c : ℕ) (s : Bytes) (args : List Arg) (o : Output)
    → c ≢ b'%'
    → round c s args o ≡ some (write (c ∷ []) o, args, s)
unfolding round
round-plain c s args o ne = ground arith

write-write : (s t : Bytes) (o : Output) → write t (write s o) ≡ write (s ++ t) o
write-write s t o = ap (λ l. record o { out = l }) (append_assoc o.out s t)

-- Text without a `%` is copied, whatever follows it.
pub run-plain :
    (s fmt : Bytes) (args : List Arg) (o : Output)
    → All (λ c. c ≢ b'%') s
    → run (length (s ++ fmt) + 1) (s ++ fmt) args o ≡ run (length fmt + 1) fmt args (write s o)
run-plain [] fmt args o h =
    ap (λ l. run (length fmt + 1) fmt args (record o { out = l })) (sym (append-nil o.out))
run-plain (c ∷ s) fmt args o h =
    run-round c (s ++ fmt) args o (round-plain c (s ++ fmt) args o h.0)
    ∙ run-plain s fmt args (write (c ∷ []) o) h.1
    ∙ ap (run (length fmt + 1) fmt args) (write-write (c ∷ []) s o)

round-signed :
    (w : ℕ) (s : Bytes) (args : List Arg) (o : Output) {t : Bytes}
    → number w 10 (negsuc 0) (negsuc 0) (record no_flags { sign = true }) ≡ some t
    → round b'%' (b'd' ∷ s) (word w ∷ args) o ≡ some (write t o, args, s)
unfolding round finish convert_one convert_number read_directive read_behind read_precision
    read_qualifier read_width read_flags set_flag
round-signed w s args o e = ap (λ r. and_next (append_number r args o) s) e

round-star :
    (w : ℕ) (args : List Arg)
    → round b'%' (codes "*d") (word w ∷ args) start
      ≡ some (write (codes "%*") start, args, codes "d")
unfolding round finish convert_one read_directive read_behind read_precision read_qualifier
    read_width read_flags set_flag
round-star w args = elim (Bool-cases (ltb_ℤ (signed32 w) (pos 0))) [
  | inl e ↦ rw (e, read_directive, read_width, next_int) refl
  | inr e ↦ rw (e, read_directive, read_width, next_int) refl
]

-- With the format `%*d` the star takes its argument and stays in the format: `%*d` itself is printed,
-- and the arguments behind the first are not read.
pub vsprintf_star :
    (w : ℕ) (args : List Arg)
    → vsprintf (codes "%*d") (word w ∷ args) ≡ done (record { out = codes "%*d"; stores = [] })
unfolding vsprintf run
vsprintf_star w args =
    run-round b'%' _ (word w ∷ args) start (round-star w args)
    ∙ run-round b'd' [] args (write (codes "%*") start) (round-plain b'd' [] args _ (omega arith))

-- `%d` writes every 32-bit argument so that `skip_atoi` reads it back: a number from 2 ^ 31 on as
-- its two's complement behind a minus.
pub vsprintf_decimal :
    (w : ℕ)
    → w < 2 ^ 32
    → (t ds : Bytes) × (vsprintf (codes "%d") (word w ∷ [])
        ≡ done (record { out = t; stores = [] }))
      × (t ≡ (if leb (2 ^ 31) w then b'-' ∷ ds else ds))
      × (skip_atoi ds ≡ (if leb (2 ^ 31) w then 2 ^ 32 - w else w, []))
unfolding vsprintf run
vsprintf_decimal w lt =
    let (t, ds, e, shape, read) = skip_atoi-number_signed w [] lt tt in
    (
      t,
      ds,
      run-round b'%' (b'd' ∷ []) (word w ∷ []) start (round-signed w [] [] start e),
      shape,
      ap skip_atoi (sym (append-nil ds)) ∙ read,
    )

-- A format without `%` is what is printed, and no argument is read.
pub vsprintf_plain :
    (s : Bytes) (args : List Arg)
    → All (λ c. c ≢ b'%') s
    → vsprintf s args ≡ done (record { out = s; stores = [] })
unfolding vsprintf run
vsprintf_plain s args h =
    ap (λ f. run (length f + 1) f args start) (sym (append-nil s)) ∙ run-plain s [] args start h
