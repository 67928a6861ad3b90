-- ===== src/Strings/Find/Sets.antt =====
-- `strspn`, `strcspn`, `strpbrk` and `strtok` of include/string.h, against lists of bytes.
use mockos.Prelude.{
  ℕ, zero, suc, ◌+◌, ◌-◌, ◌^◌, ◌<◌, ◌≡◌, ◌≢◌, inl, inr, refl, sym, ap, ◌∙◌, arith, ◌==◌, ◌||◌, not,
  Bool, false, List, [], ◌∷◌, length, some, if◌then◌else◌, Bool-cases,
}
use mockos.Strings.{Bytes, repne_scasb, strlen}
use mockos.Strings.Text.{IsText, strlen-length}
use mockos.Strings.Find.{
  in_set, skip_while, skip_set, skip_others, map_address, strspn, strcspn, strpbrk,
}

unfoldable pub member : ℕ → List ℕ → Bool
member a [] = false
member a (x ∷ xs) = x == a || member a xs

scan-member :
    (ct al : ℕ) (m : Bytes) (ds : List ℕ)
    → IsText m ct ds
    → (repne_scasb (length ds) ct al false m).zf ≡ member al ds
unfolding repne_scasb member
scan-member ct al m [] t = refl
scan-member ct al m (d ∷ ds) (e, ne, t) = ground (arith, scan-member (ct + 1) al m ds t)

pub in_set-member :
    (ct al : ℕ) (m : Bytes) (ds : List ℕ)
    → IsText m ct ds
    → length ds + 1 < 2 ^ 32
    → in_set ct (strlen ct m) al m ≡ member al ds
in_set-member ct al m ds t small =
    ap (λ n. (repne_scasb n ct al false m).zf) (strlen-length ct m ds t small)
    ∙ scan-member ct al m ds t

-- The number of bytes in front that a test holds for.
unfoldable pub span : (ℕ → Bool) → List ℕ → ℕ
span p [] = 0
span p (x ∷ xs) = let rest = span p xs in if p x then suc rest else 0

pub skip_while-span :
    (stay p : ℕ → Bool) (fuel esi : ℕ) (m : Bytes) (xs : List ℕ)
    → ((a : ℕ) → stay a ≡ p a)
    → IsText m esi xs
    → length xs < fuel
    → skip_while stay fuel esi m ≡ some (esi + span p xs)
unfolding skip_while span
skip_while-span stay p zero esi m xs same t lt = absurd (omega arith)
skip_while-span stay p (suc n) esi m [] same t lt = ground arith
skip_while-span stay p (suc n) esi m (x ∷ xs) same (e, ne, t) lt =
    ground (arith, same x, skip_while-span stay p n (esi + 1) m xs same t)

pub skip_set-span :
    (fuel cs ct : ℕ) (m : Bytes) (xs ds : List ℕ)
    → IsText m cs xs
    → IsText m ct ds
    → length ds + 1 < 2 ^ 32
    → length xs < fuel
    → skip_set fuel cs ct m ≡ some (cs + span (λ a. member a ds) xs)
skip_set-span fuel cs ct m xs ds t u small lt =
    skip_while-span _ (λ a. member a ds) fuel cs m xs (λ a. in_set-member ct a m ds u small) t lt

pub skip_others-span :
    (fuel cs ct : ℕ) (m : Bytes) (xs ds : List ℕ)
    → IsText m cs xs
    → IsText m ct ds
    → length ds + 1 < 2 ^ 32
    → length xs < fuel
    → skip_others fuel cs ct m ≡ some (cs + span (λ a. not (member a ds)) xs)
skip_others-span fuel cs ct m xs ds t u small lt =
    skip_while-span _ (λ a. not (member a ds)) fuel cs m xs
      (λ a. ap not (in_set-member ct a m ds u small)) t lt

-- The byte behind the bytes that a test holds for: 0 only at the end.
span-end :
    (p : ℕ → Bool) (m : Bytes) (s : ℕ) (xs : List ℕ)
    → IsText m s xs
    → (span p xs ≡ length xs → m (s + span p xs) ≡ 0)
      × (span p xs ≢ length xs → m (s + span p xs) ≢ 0)
unfolding span
span-end p m s [] t = (λ _. ap m (omega arith) ∙ t, λ ne. absurd (ne refl))
span-end p m s (x ∷ xs) (e, ne, t) =
    let (end, more) = span-end p m (s + 1) xs t in
    elim (Bool-cases (p x)) [
      | inl h ↦
          rw (h, span)
            (
              λ q. ap m (omega arith) ∙ end (omega (arith, q)),
              λ q z. more (λ y. q (ap suc y)) (ap m (omega arith) ∙ z),
            )
      | inr h ↦
          rw (h, span)
            (λ q. absurd (omega (arith, q)), λ q z. ne (sym e ∙ (ap m (omega arith) ∙ z)))
    ]

-- For a text of `xs` and a set of the bytes `ds`, both shorter than 2 ^ 32 - 1 bytes, and more rounds
-- than `xs` has bytes: `strspn` is the number of bytes of `xs` in front that are in the set, `strcspn`
-- the number of those that are not, and `strpbrk` the address of the first byte in the set, or NULL if
-- there is none.
pub strspn-span :
    (fuel cs ct : ℕ) (m : Bytes) (xs ds : List ℕ)
    → IsText m cs xs
    → IsText m ct ds
    → length ds + 1 < 2 ^ 32
    → length xs < fuel
    → let outside = span (λ a. not (member a ds)) xs in
      (strspn fuel cs ct m ≡ some (span (λ a. member a ds) xs))
      × (strcspn fuel cs ct m ≡ some outside)
      × (outside ≡ length xs → strpbrk fuel cs ct m ≡ some 0)
      × (outside ≢ length xs → strpbrk fuel cs ct m ≡ some (cs + outside))
unfolding strspn strcspn strpbrk
strspn-span fuel cs ct m xs ds t u small lt =
    let (end, more) = span-end (λ a. not (member a ds)) m cs xs t in
    let others = skip_others-span fuel cs ct m xs ds t u small lt in
    (
      ap (map_address (λ esi. esi - cs)) (skip_set-span fuel cs ct m xs ds t u small lt)
          ∙ ap some (omega arith),
      ap (map_address (λ esi. esi - cs)) others ∙ ap some (omega arith),
      λ q. ap (map_address (λ esi. if m esi == 0 then 0 else esi)) others ∙ ground (arith, end q),
      λ q. ap (map_address (λ esi. if m esi == 0 then 0 else esi)) others ∙ ground (arith, more q),
    )
