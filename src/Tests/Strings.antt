-- ===== src/Tests/Strings.antt =====
-- include/string.h on a memory with the texts "ab", ",b" and "a,b".
use mockos.Prelude.{
  List, ℕ, ◌+◌, ◌<◌, ◌≡◌, ◌≢◌, refl, inl, inr, arith, ◌==◌, [], ◌∷◌, some, if◌then◌else◌,
}
use mockos.Strings.{Bytes, zero_sign, minus_one, repne_scasb, strlen, strncat, strcmp}
use mockos.Strings.Text.{IsText}
use mockos.Strings.Copy.{Outside, strncat-IsText}
use mockos.Strings.Compare.{done, one_byte, text_order, strcmp-text_order}
use mockos.Strings.Find.{Token, strtok, strstr}
use mockos.Strings.Find.Sets.{member}
use mockos.Strings.Find.Tokens.{IsToken, strtok-IsText}
use mockos.Strings.Find.Substring.{starts_with, place_of, strstr-place_of}
use mockos.Strings.Memory.{memcpy, memmove, memcpy-memmove}

-- "ab" at 100, ",b" at 200, "a,b" at 300.
abbrev texts : Bytes
texts a =
    if a == 100
    then 97
    else if a == 101
    then 98
    else if a == 200
    then 44
    else if a == 201
    then 98
    else if a == 300
    then 97
    else if a == 301
    then 44
    else if a == 302
    then 98
    else 0

ab : IsText texts 100 (97 ∷ 98 ∷ [])
ab = (refl, λ e. ground arith, (refl, λ e. ground arith, refl))

comma_b : IsText texts 200 (44 ∷ 98 ∷ [])
comma_b = (refl, λ e. ground arith, (refl, λ e. ground arith, refl))

a_comma_b : IsText texts 300 (97 ∷ 44 ∷ 98 ∷ [])
a_comma_b = (refl, λ e. ground arith, (refl, λ e. ground arith, (refl, λ e. ground arith, refl)))

length_of_three : strlen 300 texts ≡ 3
unfolding strlen repne_scasb
length_of_three = refl

-- A byte above 127 is below all others.
high_byte : text_order (200 ∷ []) (97 ∷ []) ≡ minus_one
unfolding text_order
high_byte = refl

strncat-IsText_example :
    IsText (strncat 100 300 9 texts) 100 (97 ∷ 98 ∷ 97 ∷ 44 ∷ 98 ∷ [])
    × (3 < 9 → strncat 100 300 9 texts 106 ≡ 0)
    × Outside (strncat 100 300 9 texts) texts 102 5
strncat-IsText_example =
    strncat-IsText 100 300 9 texts (97 ∷ 98 ∷ []) (97 ∷ 44 ∷ 98 ∷ []) ab a_comma_b (omega arith)
      (inr (omega arith))

strcmp-text_order_example :
    let xs : List ℕ = 97 ∷ 98 ∷ [] in
    let ys : List ℕ = 97 ∷ 44 ∷ 98 ∷ [] in
    (strcmp 9 100 300 texts ≡ some (text_order xs ys))
    × (text_order xs ys ≡ zero_sign → xs ≡ ys)
    × (xs ≡ ys → text_order xs ys ≡ zero_sign)
strcmp-text_order_example =
    strcmp-text_order 9 100 300 texts (97 ∷ 98 ∷ []) (97 ∷ 44 ∷ 98 ∷ []) ab a_comma_b
      (one_byte (omega arith) (one_byte (omega arith) done))
      (one_byte (omega arith) (one_byte (omega arith) (one_byte (omega arith) done))) (omega arith)

strstr-place_of_example :
    strstr 9 300 200 texts ≡ some (place_of 300 (44 ∷ 98 ∷ []) (97 ∷ 44 ∷ 98 ∷ []))
strstr-place_of_example =
    strstr-place_of 9 300 200 texts (97 ∷ 44 ∷ 98 ∷ []) (44 ∷ 98 ∷ []) a_comma_b comma_b
      (omega arith) (omega arith)

place_found : place_of 300 (44 ∷ 98 ∷ []) (97 ∷ 44 ∷ 98 ∷ []) ≡ 301
unfolding place_of starts_with
place_found = refl

-- "a,b" cut at the bytes of "ab": the token is ",".
comma : IsToken (97 ∷ 98 ∷ []) (44 ∷ [])
unfolding member
comma = record { outside = (refl, tt); some_byte = omega arith }

strtok-IsText_example :
    (t : Token) × (strtok 9 300 100 0 texts ≡ some t)
    × (t.result ≡ 301)
    × IsText t.bytes t.result (44 ∷ [])
    × (t.next ≡ t.result + 1 + 1)
    × IsText t.bytes t.next []
    × ((b : ℕ) → b ≢ t.result + 1 → t.bytes b ≡ texts b)
unfolding member
strtok-IsText_example =
    strtok-IsText 9 300 0 300 100 texts (97 ∷ 98 ∷ []) (97 ∷ []) (44 ∷ []) [] 98 refl
      (λ e. ground arith) a_comma_b ab (omega arith) (omega arith) (refl, tt) comma refl

memcpy-memmove_example : memcpy 299 300 3 texts 300 ≡ (memmove 299 300 3 texts).0 300
memcpy-memmove_example = memcpy-memmove 299 300 3 texts 300 (inl (omega arith))
