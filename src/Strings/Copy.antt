-- ===== src/Strings/Copy.antt =====
-- What `strcpy`, `strncpy`, `strcat` and `strncat` of include/string.h leave in the memory.
use mockos.Prelude.{
  update, ℕ, zero, suc, ◌+◌, ◌^◌, ◌<◌, ◌≤◌, ◌≡◌, ◌⊎◌, refl, sym, ap, ◌∙◌, subst, arith, List, [],
  ◌∷◌, ◌++◌, length, take, some,
}
use mockos.Mm.State.{fill_in, fill_out}
use mockos.Strings.{Bytes, copy_text, strcpy, strncpy, strcat, append_bytes, strncat}
use mockos.Strings.Text.{IsText, scan_end-edi, Agree-IsText, IsText-append}

-- `n` bytes from `a` on and `k` bytes from `b` on share none.
abbrev pub Apart : (a n b k : ℕ) → Type 0
Apart a n b k = (a + n ≤ b) ⊎ (b + k ≤ a)

-- `m'` differs from `m` at most in the `n` bytes from `a` on.
abbrev pub Outside : Bytes → Bytes → (a n : ℕ) → Type 0
Outside m' m a n = (b : ℕ) → (b < a) ⊎ (a + n ≤ b) → m' b ≡ m b

stored :
    (m : Bytes) (esi edi : ℕ) (xs : List ℕ)
    → Apart (esi + 1) (length xs + 1) edi 1
    → IsText m (esi + 1) xs
    → IsText (update m edi (m esi)) (esi + 1) xs
stored m esi edi xs apart t = Agree-IsText (esi + 1) xs (λ a lo hi. ground arith) t

copy_text-IsText :
    (fuel esi edi : ℕ) (m : Bytes) (xs : List ℕ)
    → IsText m esi xs
    → length xs < fuel
    → Apart esi (length xs + 1) edi (length xs + 1)
    → (m' : Bytes) × (copy_text fuel esi edi m ≡ some m')
      × IsText m' edi xs
      × Outside m' m edi (length xs + 1)
unfolding copy_text
copy_text-IsText zero esi edi m xs t lt apart = absurd (omega arith)
copy_text-IsText (suc n) esi edi m [] t lt apart =
    (update m edi (m esi), ground arith, ground arith, λ b out. ground arith)
copy_text-IsText (suc n) esi edi m (x ∷ xs) (e, ne, t) lt apart =
    let (m', ran, u, out) =
      copy_text-IsText n (esi + 1) (edi + 1) (update m edi (m esi)) xs
        (stored m esi edi xs (omega arith) t) (omega arith) (omega arith) in
    (
      m',
      ground (arith, ran),
      (out edi (omega arith) ∙ ground arith, ne, u),
      λ b o. out b (omega arith) ∙ ground arith,
    )

-- For a text at `src` that its copy does not overlap, and more rounds than it has bytes: `strcpy`
-- ends, the text stands at `dest`, and no other byte changes.
pub strcpy-IsText :
    (fuel dest src : ℕ) (m : Bytes) (xs : List ℕ)
    → IsText m src xs
    → length xs < fuel
    → Apart src (length xs + 1) dest (length xs + 1)
    → (m' : Bytes) × (strcpy fuel dest src m ≡ some m')
      × IsText m' dest xs
      × Outside m' m dest (length xs + 1)
unfolding strcpy
strcpy-IsText fuel dest src = copy_text-IsText fuel src dest

-- For the texts `xs` at `dest` and `ys` at `src`, the second apart from the room for both, shorter
-- than 2 ^ 32 - 1 bytes, and more rounds than the second has bytes: `strcat` ends, at `dest` stands the
-- one text behind the other, and no byte changes outside the room for `ys` behind `xs`.
pub strcat-IsText :
    (fuel dest src : ℕ) (m : Bytes) (xs ys : List ℕ)
    → IsText m dest xs
    → IsText m src ys
    → length xs + 1 < 2 ^ 32
    → length ys < fuel
    → Apart src (length ys + 1) dest (length xs + length ys + 1)
    → (m' : Bytes) × (strcat fuel dest src m ≡ some m')
      × IsText m' dest (xs ++ ys)
      × Outside m' m (dest + length xs) (length ys + 1)
unfolding strcat
strcat-IsText fuel dest src m xs ys t u small lt apart =
    let (m', ran, v, out) = copy_text-IsText fuel src (dest + length xs) m ys u lt (omega arith) in
    (
      m',
      rw (scan_end-edi dest m xs t small) ran,
      IsText-append dest xs ys (λ a lo hi. out a (omega arith)) t v,
      out,
    )

-- What `append_bytes` is to leave of the text `ys`.
Appended : (count edi : ℕ) (ys : List ℕ) → Bytes → Bytes → Type 0
Appended count edi ys m m' =
    IsText m' edi (take count ys)
    × (length ys < count → m' (edi + length ys + 1) ≡ 0)
    × Outside m' m edi (length ys + 2)

append_bytes-Appended :
    (count esi edi : ℕ) (m : Bytes) (ys : List ℕ)
    → IsText m esi ys
    → Apart esi (length ys + 1) edi (length ys + 2)
    → Appended count edi ys m (append_bytes count esi edi m)
unfolding append_bytes Appended
append_bytes-Appended zero esi edi m ys t apart =
    (ground arith, λ lt. absurd (omega arith), λ b out. ground arith)
append_bytes-Appended (suc n) esi edi m [] t apart =
    (ground arith, λ lt. ground arith, λ b out. ground arith)
append_bytes-Appended (suc n) esi edi m (y ∷ ys) (e, ne, t) apart =
    let stored_y = update m edi (m esi) in
    let step : append_bytes (suc n) esi edi m ≡ append_bytes n (esi + 1) (edi + 1) stored_y =
      ground arith in
    let (u, z, out) =
      append_bytes-Appended n (esi + 1) (edi + 1) stored_y ys (stored m esi edi ys (omega arith) t)
        (omega arith) in
    subst (Appended (suc n) edi (y ∷ ys) m) (sym step) (
      (out edi (omega arith) ∙ ground arith, ne, u),
      λ lt. ap (append_bytes n (esi + 1) (edi + 1) stored_y) (omega arith) ∙ z (omega arith),
      λ b o. out b (omega arith) ∙ ground arith,
    )

-- For the texts `xs` at `dest` and `ys` at `src`, the second apart from the room for both and one byte
-- more, and the first shorter than 2 ^ 32 - 1 bytes: behind `strncat` the first `count` bytes of `ys`
-- stand behind `xs` at `dest` as one text. If `ys` is shorter than `count`, a byte 0 is also stored
-- behind the end of that text. No byte changes outside the room for `ys`, its end and that byte.
pub strncat-IsText :
    (dest src count : ℕ) (m : Bytes) (xs ys : List ℕ)
    → IsText m dest xs
    → IsText m src ys
    → length xs + 1 < 2 ^ 32
    → Apart src (length ys + 1) dest (length xs + length ys + 2)
    → IsText (strncat dest src count m) dest (xs ++ take count ys)
      × (length ys < count → strncat dest src count m (dest + length xs + length ys + 1) ≡ 0)
      × Outside (strncat dest src count m) m (dest + length xs) (length ys + 2)
unfolding strncat Appended
strncat-IsText dest src count m xs ys t u small apart =
    let (v, z, out) = append_bytes-Appended count src (dest + length xs) m ys u (omega arith) in
    rw (scan_end-edi dest m xs t small)
      (IsText-append dest xs (take count ys) (λ a lo hi. out a (omega arith)) t v, z, out)

-- The byte `k` of a text, and 0 behind its end.
pub byte_at : List ℕ → ℕ → ℕ
byte_at [] k = 0
byte_at (x ∷ xs) zero = x
byte_at (x ∷ xs) (suc k) = byte_at xs k

-- The bytes at `dest`, filled up.
Filled : (dest count : ℕ) (xs : List ℕ) → Bytes → Bytes → Type 0
Filled dest count xs m m' =
    ((k : ℕ) → k < count → m' (dest + k) ≡ byte_at xs k) × Outside m' m dest count

byte_at-cons :
    (m : Bytes) (dest n x : ℕ) (xs : List ℕ)
    → m dest ≡ x
    → ((k : ℕ) → k < n → m (dest + 1 + k) ≡ byte_at xs k)
    → (k : ℕ) → k < suc n
    → m (dest + k) ≡ byte_at (x ∷ xs) k
unfolding byte_at
byte_at-cons m dest n x xs e later zero lt = ap m (omega arith) ∙ e
byte_at-cons m dest n x xs e later (suc k) lt = ap m (omega arith) ∙ later k (omega arith)

-- For a text at `src` that the `count` bytes at `dest` do not overlap: behind `strncpy` those are the
-- first `count` bytes of the text, filled up with 0, and no other byte changes.
pub strncpy-byte_at :
    (dest src count : ℕ) (m : Bytes) (xs : List ℕ)
    → IsText m src xs
    → Apart src (length xs + 1) dest count
    → ((k : ℕ) → k < count → strncpy dest src count m (dest + k) ≡ byte_at xs k)
      × Outside (strncpy dest src count m) m dest count
unfolding strncpy byte_at Filled
strncpy-byte_at dest src zero m xs t apart = (λ k lt. absurd (omega arith), λ b out. refl)
strncpy-byte_at dest src (suc n) m [] t apart = (
  λ k lt. ground (
    arith,
    fill_in n (dest + 1) (m src) (update m dest (m src)) (dest + k),
    fill_out n (dest + 1) (m src) (update m dest (m src)) (dest + k),
  ),
  λ b out. ground (arith, fill_out n (dest + 1) (m src) (update m dest (m src)) b),
)
strncpy-byte_at dest src (suc n) m (x ∷ xs) (e, ne, t) apart =
    let stored_x = update m dest (m src) in
    let step : strncpy dest src (suc n) m ≡ strncpy (dest + 1) (src + 1) n stored_x =
      ground arith in
    let (u, out) =
      strncpy-byte_at (dest + 1) (src + 1) n stored_x xs
        (Agree-IsText (src + 1) xs (λ a lo hi. ground arith) t) (omega arith) in
    subst (Filled dest (suc n) (x ∷ xs) m) (sym step) (
      byte_at-cons (strncpy (dest + 1) (src + 1) n stored_x) dest n x xs
          (out dest (omega arith) ∙ ground arith) u,
      λ b o. out b (omega arith) ∙ ground arith,
    )
