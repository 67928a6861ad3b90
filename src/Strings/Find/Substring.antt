-- ===== src/Strings/Find/Substring.antt =====
-- `strstr` of include/string.h: the first place of a text in another.
use mockos.Prelude.{
  ℕ, zero, suc, ◌+◌, ◌-◌, ◌^◌, ◌<◌, ◌≡◌, refl, ap, ◌∙◌, arith, ◌==◌, ◌&&◌, Bool, true, false, List,
  [], ◌∷◌, length, some, if◌then◌else◌,
}
use mockos.Strings.{Bytes}
use mockos.Strings.Text.{IsText, strlen-length}
use mockos.Strings.Find.{repe_cmpsb, find_text, strstr}

-- Whether the second list starts with the first.
unfoldable pub starts_with : (ys xs : List ℕ) → Bool
starts_with [] xs = true
starts_with (y ∷ ys) [] = false
starts_with (y ∷ ys) (x ∷ xs) = x == y && starts_with ys xs

-- The address of the first place of `ys` in `xs`, which stands at `s`, or NULL.
unfoldable pub place_of : (s : ℕ) (ys xs : List ℕ) → ℕ
place_of s ys [] = if starts_with ys [] then s else 0
place_of s ys (x ∷ xs) = if starts_with ys (x ∷ xs) then s else place_of (s + 1) ys xs

-- A comparison that fails stops at the end of the text only if that is the shorter one.
repe_cmpsb-starts_with :
    (esi edi : ℕ) (zf : Bool) (m : Bytes) (xs ys : List ℕ)
    → IsText m esi xs
    → IsText m edi ys
    → (length ys ≡ 0 → zf ≡ true)
    → let r = repe_cmpsb (length ys) esi edi zf m in
      (r.zf ≡ starts_with ys xs)
      × (starts_with ys xs ≡ false → m (r.esi - 1) ≡ 0 → length xs < length ys)
      × (starts_with ys xs ≡ false → length xs ≡ 0 → m (r.esi - 1) ≡ 0)
unfolding repe_cmpsb starts_with
repe_cmpsb-starts_with esi edi zf m xs [] t u z =
    (ground arith, λ f e. ground arith, λ f e. ground arith)
repe_cmpsb-starts_with esi edi zf m [] (y ∷ ys) t (h, ne, u) z =
    (ground arith, λ f e. omega arith, λ f e. ground arith)
repe_cmpsb-starts_with esi edi zf m (x ∷ xs) (y ∷ ys) (e, ne, t) (h, ne', u) z =
    let (same, rest, end) =
      repe_cmpsb-starts_with (esi + 1) (edi + 1) true m xs ys t u (λ _. refl) in
    (ground (arith, same), λ f q. ground (arith, rest), λ f q. absurd (omega (arith, q)))

shorter : (ys xs : List ℕ) → length xs < length ys → starts_with ys xs ≡ false
unfolding starts_with
shorter [] xs lt = absurd (omega arith)
shorter (y ∷ ys) [] lt = refl
shorter (y ∷ ys) (x ∷ xs) lt = ground (arith, shorter ys xs)

place_of-shorter : (s : ℕ) (ys xs : List ℕ) → length xs < length ys → place_of s ys xs ≡ 0
unfolding place_of
place_of-shorter s ys [] lt = ground (arith, shorter ys [] lt)
place_of-shorter s ys (x ∷ xs) lt =
    ground (arith, shorter ys (x ∷ xs) lt, place_of-shorter (s + 1) ys xs)

find_text-place_of :
    (fuel s ct : ℕ) (m : Bytes) (xs ys : List ℕ)
    → IsText m s xs
    → IsText m ct ys
    → length xs < fuel
    → find_text fuel s ct (length ys) m ≡ some (place_of s ys xs)
unfolding find_text place_of
find_text-place_of zero s ct m xs ys t u lt = absurd (omega arith)
find_text-place_of (suc n) s ct m [] ys t u lt =
    let (same, short, end) =
      repe_cmpsb-starts_with s ct (length ys == 0) m [] ys t u (λ e. ground arith) in
    ground (arith, same, end)
find_text-place_of (suc n) s ct m (x ∷ xs) ys t u lt =
    let (same, short, end) =
      repe_cmpsb-starts_with s ct (length ys == 0) m (x ∷ xs) ys t u (λ e. ground arith) in
    let none_behind : length (x ∷ xs) < length ys → place_of (s + 1) ys xs ≡ 0 =
      λ l. place_of-shorter (s + 1) ys xs (omega arith) in
    ground (arith, same, short, none_behind, find_text-place_of n (s + 1) ct m xs ys t.2 u)

-- For the texts `xs` at `cs` and `ys` at `ct`, the second shorter than 2 ^ 32 - 1 bytes, and more
-- rounds than the first has bytes: `strstr` ends with the address of the first place of `ys` in `xs`,
-- or with NULL if there is none.
pub strstr-place_of :
    (fuel cs ct : ℕ) (m : Bytes) (xs ys : List ℕ)
    → IsText m cs xs
    → IsText m ct ys
    → length ys + 1 < 2 ^ 32
    → length xs < fuel
    → strstr fuel cs ct m ≡ some (place_of cs ys xs)
unfolding strstr
strstr-place_of fuel cs ct m xs ys t u small lt =
    ap (λ n. find_text fuel cs ct n m) (strlen-length ct m ys u small)
    ∙ find_text-place_of fuel cs ct m xs ys t u lt
