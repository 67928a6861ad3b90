-- ===== src/Printf/Arrange.antt =====
-- The layout of a field: what the three loops on the width write around sign, prefix and digits.
use Prim.Native.Nat.{max}
use mathlib.Core.List.{reverse, append-nil}
use mockos.Prelude.{
  suc, ◌&&◌, if◌then◌else◌, ℕ, ◌+◌, ◌-◌, ◌^◌, ◌<◌, ◌≤◌, ◌≡◌, refl, ap, ◌∙◌, arith, ◌==◌, not, Bool,
  true, false, [], ◌∷◌, ◌++◌, length, length-append, length-replicate, replicate, inl, inr,
  Bool-cases,
}
use mockos.Prelude.Int.{ℤ, pos, negsuc, pos_part, neg_part, ◌-ℤ◌, sub_int, sub_int_parts}
use mockos.Printf.{fill_to, Bytes, Flags, if_bytes, prefix, shrink, place, at_least, emit}

-- The parts of a number in a field: `pad` bytes go behind it, between prefix and zeros, or before it.
abbrev pub arrange : (zeropad left : Bool) (sign before zeros digits : Bytes) → (pad : ℕ) → Bytes
arrange zeropad true sign before zeros digits pad =
    sign ++ (before ++ (zeros ++ (digits ++ replicate pad b' ')))
arrange true false sign before zeros digits pad =
    sign ++ (before ++ (replicate pad b'0' ++ (zeros ++ digits)))
arrange false false sign before zeros digits pad =
    replicate pad b' ' ++ (sign ++ (before ++ (zeros ++ digits)))

sub_int-one : (n : ℕ) → n + 1 < 2 ^ 31 → sub_int (negsuc n) (pos 1) ≡ negsuc (suc n)
sub_int-one n lt = ground arith

place-arrange :
    (zeropad left : Bool) (sign before zeros digits : Bytes) (size : ℤ)
    → neg_part size + 2 ≤ 2 ^ 31
    → place zeropad left sign before zeros digits size
      ≡ arrange zeropad left sign before zeros digits (pos_part size)
unfolding place
place-arrange true true sign before zeros digits (pos n) room = refl
place-arrange true true sign before zeros digits (negsuc n) room = refl
place-arrange false true sign before zeros digits (pos n) room = refl
place-arrange false true sign before zeros digits (negsuc n) room = refl
place-arrange true false sign before zeros digits (pos n) room = rw (append-nil digits) refl
place-arrange true false sign before zeros digits (negsuc n) room =
    ap (λ w. sign ++ (before ++ (zeros ++ (digits ++ (fill_to b' ' w).0))))
      (sub_int-one n (omega arith))
    ∙ ap (λ t. sign ++ (before ++ (zeros ++ t))) (append-nil digits)
place-arrange false false sign before zeros digits (pos n) room = rw (append-nil digits) refl
place-arrange false false sign before zeros digits (negsuc n) room =
    ap
      (λ w.
        let (fills, w') = fill_to b' ' w in
        sign ++ (before ++ (fills ++ (zeros ++ (digits ++ (fill_to b' ' w').0)))))
      (sub_int-one n (omega arith))
    ∙ ap (λ w. sign ++ (before ++ (zeros ++ (digits ++ (fill_to b' ' w).0))))
        (sub_int-one (suc n) (omega arith))
    ∙ ap (λ t. sign ++ (before ++ (zeros ++ t))) (append-nil digits)

pub length-arrange :
    (zeropad left : Bool) (sign before zeros digits : Bytes) (pad : ℕ)
    → length (arrange zeropad left sign before zeros digits pad)
      ≡ length sign + length before + length zeros + length digits + pad
length-arrange true true sign before zeros digits pad =
    simp (length-append, length-replicate) (omega arith)
length-arrange false true sign before zeros digits pad =
    simp (length-append, length-replicate) (omega arith)
length-arrange true false sign before zeros digits pad =
    simp (length-append, length-replicate) (omega arith)
length-arrange false false sign before zeros digits pad =
    simp (length-append, length-replicate) (omega arith)

-- the bytes of sign and prefix
abbrev pub lead : Flags → ℕ → ℕ → ℕ
lead type sign base = length (if_bytes (not (sign == 0)) (sign ∷ [])) + length (prefix type base)

-- `size` less the bytes of the prefix
abbrev without_prefix : Flags → ℕ → ℤ → ℤ
without_prefix type base size =
    if type.special && base == 16
    then sub_int size (pos 2)
    else if type.special && base == 8
    then sub_int size (pos 1)
    else size

prefix_parts :
    (type : Flags) (base : ℕ) (size : ℤ)
    → pos_part size < 2 ^ 31
    → neg_part size + 2 ≤ 2 ^ 31
    → let t = without_prefix type base size in
      (pos_part t ≡ pos_part size - length (prefix type base)) × (neg_part t ≤ neg_part size + 2)
unfolding prefix
prefix_parts type base size lt room = elim (Bool-cases (type.special && base == 16)) [
  | inl e ↦
      let (a, b) = sub_int_parts size 2 lt room in
      let d : (type.special && base == 8) ≡ false = ground arith in
      rw (e, d) (omega (arith, a), omega (arith, b))
  | inr e ↦ elim (Bool-cases (type.special && base == 8)) [
    | inl d ↦
        let (a, b) = sub_int_parts size 1 lt (omega arith) in
        rw (e, d) (omega (arith, a), omega (arith, b))
    | inr d ↦ rw (e, d) (omega arith, omega arith)
  ]
]

shrink_parts :
    (type : Flags) (sign base : ℕ) (size : ℤ)
    → pos_part size < 2 ^ 31
    → neg_part size + 3 ≤ 2 ^ 31
    → (pos_part (shrink type sign base size) ≡ pos_part size - lead type sign base)
      × (neg_part (shrink type sign base size) ≤ neg_part size + 3)
unfolding shrink prefix
shrink_parts type sign base size lt room = elim (Bool-cases (sign == 0)) [
  | inl e ↦
      let (a, b) = prefix_parts type base size lt (omega arith) in
      rw e (omega (arith, a), omega (arith, b))
  | inr e ↦
      let (a, b) = sub_int_parts size 1 lt (omega arith) in
      let (c, d) =
        prefix_parts type base (sub_int size (pos 1)) (omega (arith, a)) (omega (arith, b)) in
      rw e (omega (arith, a, c), omega (arith, b, d))
]

shrink-lead :
    (type : Flags) (sign base p : ℕ) (size : ℤ)
    → pos_part size < 2 ^ 31
    → neg_part size + p + 5 ≤ 2 ^ 31
    → (pos_part (sub_int (shrink type sign base size) (pos p))
        ≡ pos_part size - (lead type sign base + p))
      × (neg_part (sub_int (shrink type sign base size) (pos p)) + 2 ≤ 2 ^ 31)
shrink-lead type sign base p size lt room =
    let (a, b) = shrink_parts type sign base size lt (omega arith) in
    let (c, d) =
      sub_int_parts (shrink type sign base size) p (omega (arith, a)) (omega (arith, b)) in
    (omega (arith, a, c), omega (arith, b, d))

at_least-max : (i : ℕ) (precision : ℤ) → at_least i precision ≡ pos (max i (pos_part precision))
at_least-max i (pos n) = ground arith
at_least-max i (negsuc n) = ground arith

pos_sub : (p i : ℕ) → i ≤ p → (pos p -ℤ pos i) ≡ pos (p - i)
pos_sub p i le = ground arith

-- Width and precision from which no `int` of `number` goes below -2 ^ 31.
pub record IsField (size precision : ℤ) : Type 0 where
  pub width_int : pos_part size < 2 ^ 31
  pub room : neg_part size + pos_part precision + 37 ≤ 2 ^ 31

-- What `emit` writes, with the number of digits that the precision asks for and the bytes that
-- the width leaves.
pub emit-arrange :
    (type : Flags) (sign base : ℕ) (ds : Bytes) (size precision : ℤ)
    → IsField size precision
    → length ds ≤ 32
    → let n = max (length ds) (pos_part precision) in
      emit type sign (prefix type base) ds (shrink type sign base size) precision
      ≡ arrange type.zeropad type.left
          (if_bytes (not (sign == 0)) (sign ∷ []))
          (prefix type base)
          (replicate (n - length ds) b'0')
          (reverse ds)
          (pos_part size - (lead type sign base + n))
unfolding emit
emit-arrange type sign base ds size precision field short =
    let n = max (length ds) (pos_part precision) in
    let (a, b) = shrink-lead type sign base n size field.width_int (omega (arith, field.room)) in
    rw (at_least-max (length ds) precision, pos_sub n (length ds) (omega arith))
      (place-arrange type.zeropad type.left (if_bytes (not (sign == 0)) (sign ∷ []))
          (prefix type base) (replicate (n - length ds) b'0') (reverse ds)
          (sub_int (shrink type sign base size) (pos n)) b
        ∙ ap
            (arrange type.zeropad type.left (if_bytes (not (sign == 0)) (sign ∷ []))
              (prefix type base) (replicate (n - length ds) b'0') (reverse ds))
            a)
