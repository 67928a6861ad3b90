-- ===== src/Build/Files.antt =====
-- tools/build.c: what the loops that copy and fill leave, and what the checks let through.
use mathlib.Core.List.{append-nil, append_assoc}
use mockos.Prelude.{
  some, ap₂, ℕ, zero, suc, ◌+◌, ◌-◌, ◌*◌, ◌<◌, ◌≤◌, ◌≡◌, refl, sym, ap, ◌∙◌, arith, ◌==◌, ltb, true,
  false, List, [], ◌∷◌, ◌++◌, length, take, replicate, length-append, if◌then◌else◌, Bool-cases,
  inl, inr, eq→==,
}
use mockos.Build.{
  done, Host, went_on, and_then, drop, write_all, copy_file, pad_setup, File, long_at, check_header,
  read_header,
}

-- A standard output that takes all bytes.
abbrev pub TakesAll : Host → Type 0
TakesAll h = (out c : List ℕ) → h.write out c ≡ length c

pub write_all-went_on :
    (h : Host) (c out : List ℕ) → TakesAll h → write_all h c out ≡ went_on done (out ++ c)
unfolding write_all
write_all-went_on h c out takes =
    let e : (h.write out c == length c) ≡ true = eq→== _ _ (takes out c) in rw e refl

pub take-append-drop : (n : ℕ) (xs : List ℕ) → take n xs ++ drop n xs ≡ xs
take-append-drop zero xs = refl
take-append-drop (suc n) [] = refl
take-append-drop (suc n) (x ∷ xs) = ap (λ l. x ∷ l) (take-append-drop n xs)

pub length-take-drop : (n : ℕ) (xs : List ℕ) → length (take n xs) + length (drop n xs) ≡ length xs
length-take-drop n xs =
    sym (length-append (take n xs) (drop n xs)) ∙ ap length (take-append-drop n xs)

pub length-drop-lt : (n : ℕ) (x : ℕ) (xs : List ℕ) → 0 < n → length (drop n (x ∷ xs)) ≤ length xs
length-drop-lt zero x xs lt = absurd (omega arith)
length-drop-lt (suc n) x xs lt = omega (arith, length-take-drop n xs)

-- As many rounds as a file has bytes copy it whole.
pub copy_file-went_on :
    (fuel : ℕ) (h : Host) (i : ℕ) (file out : List ℕ)
    → TakesAll h
    → length file ≤ fuel
    → copy_file fuel h i file out ≡ went_on (i + length file) (out ++ file)
unfolding copy_file
copy_file-went_on zero h i [] out takes le = ap₂ went_on (omega arith) (sym (append-nil out))
copy_file-went_on zero h i (x ∷ xs) out takes le = absurd (omega arith)
copy_file-went_on (suc n) h i [] out takes le = ap₂ went_on (omega arith) (sym (append-nil out))
copy_file-went_on (suc n) h i (x ∷ xs) out takes le =
    let c = take 1024 (x ∷ xs) in
    let rest = drop 1024 (x ∷ xs) in
    ap (λ r. and_then r (λ _ o. copy_file n h (i + length c) rest o))
      (write_all-went_on h c out takes)
    ∙ (copy_file-went_on n h (i + length c) rest (out ++ c) takes
          (omega (arith, length-drop-lt 1024 x xs (omega arith)))
        ∙ ap₂ went_on (omega (arith, length-take-drop 1024 (x ∷ xs)))
            (append_assoc out c rest ∙ ap (λ l. out ++ l) (take-append-drop 1024 (x ∷ xs))))

zeros : ℕ → List ℕ
zeros n = replicate n 0

zeros-append : (n k : ℕ) → zeros n ++ zeros k ≡ zeros (n + k)
unfolding zeros
zeros-append zero k = ap (λ j. replicate j 0) (omega arith)
zeros-append (suc n) k =
    let e : suc n + k ≡ suc (n + k) = omega arith in rw e (ap (λ l. 0 ∷ l) (zeros-append n k))

pub replicate-append :
    (n k : ℕ) → ◌++◌ {A = ℕ} (replicate n 0) (replicate k 0) ≡ replicate (n + k) 0
unfolding zeros
replicate-append n k = zeros-append n k

pad_round :
    (h : Host) (n i : ℕ) (out : List ℕ)
    → TakesAll h
    → i < 2048
    → let c = if ltb 1024 (2048 - i) then 1024 else 2048 - i in
      pad_setup (suc n) h i out ≡ pad_setup n h (i + c) (out ++ zeros c)
unfolding pad_setup zeros
pad_round h n i out takes lt =
    let e : ltb i 2048 ≡ true = ground arith in
    let c = if ltb 1024 (2048 - i) then 1024 else 2048 - i in
    rw e (
      ap (λ r. and_then r (λ _ o. pad_setup n h (i + c) o))
        (write_all-went_on h (replicate c 0) out takes))

pad_setup-end :
    (h : Host) (n i : ℕ) (out : List ℕ)
    → 2048 ≤ i
    → pad_setup n h i out ≡ went_on done (out ++ zeros (2048 - i))
unfolding pad_setup zeros
pad_setup-end h zero i out le =
    let z : 2048 - i ≡ 0 = omega arith in rw z (ap (went_on done) (sym (append-nil out)))
pad_setup-end h (suc n) i out le =
    let e : ltb i 2048 ≡ false = ground arith in
    let z : 2048 - i ≡ 0 = omega arith in
    rw (z, e, pad_setup) (ap (went_on done) (sym (append-nil out)))

-- Rounds of 1024 bytes fill setup up to its four sectors.
pad_setup-zeros :
    (h : Host) (n i : ℕ) (out : List ℕ)
    → TakesAll h
    → 2048 ≤ i + n * 1024
    → pad_setup n h i out ≡ went_on done (out ++ zeros (2048 - i))
pad_setup-zeros h zero i out takes le = pad_setup-end h zero i out (omega arith)
pad_setup-zeros h (suc n) i out takes le = elim (Bool-cases (ltb i 2048)) [
  | inr e ↦ pad_setup-end h (suc n) i out (ground arith)
  | inl e ↦
      let c = if ltb 1024 (2048 - i) then 1024 else 2048 - i in
      let sum : c + (2048 - (i + c)) ≡ 2048 - i = ground arith in
      pad_round h n i out takes (ground arith)
      ∙ (pad_setup-zeros h n (i + c) (out ++ zeros c) takes (ground arith)
          ∙ ap (went_on done) (
              append_assoc out (zeros c) (zeros (2048 - (i + c)))
              ∙ ap (λ l. out ++ l) (zeros-append c (2048 - (i + c)) ∙ ap zeros sum)))
]

pub pad_setup-went_on :
    (h : Host) (i : ℕ) (out : List ℕ)
    → TakesAll h
    → pad_setup 2 h i out ≡ went_on done (out ++ replicate (2048 - i) 0)
unfolding zeros
pad_setup-went_on h i out takes = pad_setup-zeros h 2 i out takes (omega arith)

-- A header that `check_header` lets through.
pub record IsHeader (buf : List ℕ) : Type 0 where
  pub whole : length buf ≡ 32
  pub magic : long_at buf 0 ≡ 0x0410_0301
  pub size : long_at buf 1 ≡ 32
  pub no_data : long_at buf 3 ≡ 0
  pub no_bss : long_at buf 4 ≡ 0
  pub entry : long_at buf 5 ≡ 0
  pub no_symbols : long_at buf 7 ≡ 0

check_header-went_on :
    (f : File) (buf out : List ℕ) → IsHeader buf → check_header f buf out ≡ went_on done out
unfolding check_header
check_header-went_on f buf out k =
    rw
      (
        eq→== _ _ k.magic,
        eq→== _ _ k.size,
        eq→== _ _ k.no_data,
        eq→== _ _ k.no_bss,
        eq→== _ _ k.entry,
        eq→== _ _ k.no_symbols,
      )
      refl

take-append :
    (xs ys : List ℕ) → (take (length xs) (xs ++ ys) ≡ xs) × (drop (length xs) (xs ++ ys) ≡ ys)
take-append [] ys = (refl, refl)
take-append (x ∷ xs) ys = let (t, d) = take-append xs ys in (ap (λ l. x ∷ l) t, d)

pub read_header-went_on :
    (h : Host) (f : File) (name out header rest : List ℕ)
    → h.contents name ≡ some (header ++ rest)
    → IsHeader header
    → read_header h f name out ≡ went_on rest out
unfolding read_header
read_header-went_on h f name out header rest e k =
    let t : take 32 (header ++ rest) ≡ header =
      ap (λ n. take n (header ++ rest)) (sym k.whole) ∙ (take-append header rest).0 in
    let d : drop 32 (header ++ rest) ≡ rest =
      ap (λ n. drop n (header ++ rest)) (sym k.whole) ∙ (take-append header rest).1 in
    rw (e, read_header)
      (rw t (
        rw (d, eq→== _ _ k.whole)
          (ap (λ r. and_then r (λ _ o. went_on rest o)) (check_header-went_on f header out k))))
