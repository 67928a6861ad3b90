-- ===== src/Strings/Compare.antt =====
-- `strcmp` and `strncmp` of include/string.h order texts by their bytes as signed chars.
use mockos.Prelude.{
  inl, inr, ℕ, zero, suc, ◌+◌, ◌<◌, ◌≡◌, ◌≢◌, refl, sym, ap, ◌∙◌, arith, ◌==◌, ltb, leb, ◌&&◌, List,
  [], ◌∷◌, length, take, some, if◌then◌else◌, Bool-cases,
}
use mockos.Strings.{
  Bytes, Sign, minus_one, zero_sign, plus_one, sign_of_difference, strcmp, strncmp,
}
use mockos.Strings.Text.{IsText}

-- The order of two different bytes as numbers of eight bits with a sign: those from 128 on are negative,
-- and so before all others.
abbrev pub byte_order : ℕ → ℕ → Sign
byte_order x y =
    if leb 128 x && ltb y 128
    then minus_one
    else if ltb x 128 && leb 128 y
    then plus_one
    else if ltb x y
    then minus_one
    else plus_one

-- The order of texts: that of the first bytes that differ, where the end counts as a byte 0.
unfoldable pub text_order : List ℕ → List ℕ → Sign
text_order [] [] = zero_sign
text_order [] (y ∷ ys) = byte_order 0 y
text_order (x ∷ xs) [] = byte_order x 0
text_order (x ∷ xs) (y ∷ ys) =
    let rest = text_order xs ys in if x == y then rest else byte_order x y

-- A byte is below 256.
pub data AreBytes : List ℕ → Type 0 where
  done : AreBytes []
  one_byte : {x : ℕ} {xs : List ℕ} → x < 256 → AreBytes xs → AreBytes (x ∷ xs)

pub byte_order-sign :
    (ct cs : ℕ) → ct ≢ cs → ct < 256 → cs < 256 → sign_of_difference ct cs ≡ byte_order cs ct
byte_order-sign ct cs ne a b = ground arith

byte_order-ne : (x y : ℕ) → byte_order x y ≢ zero_sign
byte_order-ne x y e = ground arith

text_order-zero : (xs ys : List ℕ) → text_order xs ys ≡ zero_sign → xs ≡ ys
unfolding text_order
text_order-zero [] [] e = refl
text_order-zero [] (y ∷ ys) e = absurd (byte_order-ne 0 y e)
text_order-zero (x ∷ xs) [] e = absurd (byte_order-ne x 0 e)
text_order-zero (x ∷ xs) (y ∷ ys) e = elim (Bool-cases (x == y)) [
  | inl h ↦ ground (arith, text_order-zero xs ys)
  | inr h ↦ absurd (byte_order-ne x y (ground arith))
]

text_order-same : (xs : List ℕ) → text_order xs xs ≡ zero_sign
unfolding text_order
text_order-same [] = refl
text_order-same (x ∷ xs) = ground (arith, text_order-same xs)

strcmp-order :
    (fuel cs ct : ℕ) (m : Bytes) (xs ys : List ℕ)
    → IsText m cs xs
    → IsText m ct ys
    → AreBytes xs
    → AreBytes ys
    → length xs < fuel
    → strcmp fuel cs ct m ≡ some (text_order xs ys)
unfolding strcmp text_order
strcmp-order zero cs ct m xs ys t u a b lt = absurd (omega arith)
strcmp-order (suc n) cs ct m [] [] t u a b lt = ground arith
strcmp-order (suc n) cs ct m [] (y ∷ ys) t u a (one_byte q b) lt =
    ground (arith, byte_order-sign y 0)
strcmp-order (suc n) cs ct m (x ∷ xs) [] t u (one_byte p a) b lt =
    ground (arith, byte_order-sign 0 x)
strcmp-order (suc n) cs ct m (x ∷ xs) (y ∷ ys) t u (one_byte p a) (one_byte q b) lt =
    ground (arith, byte_order-sign y x, strcmp-order n (cs + 1) (ct + 1) m xs ys t.2 u.2 a b)

-- For texts of bytes below 256, and more rounds than the first has bytes: `strcmp` ends with the
-- order of the texts by the first bytes that differ, where a byte from 128 on is negative and the
-- end counts as 0. The result is 0 if and only if the texts are the same.
pub strcmp-text_order :
    (fuel cs ct : ℕ) (m : Bytes) (xs ys : List ℕ)
    → IsText m cs xs
    → IsText m ct ys
    → AreBytes xs
    → AreBytes ys
    → length xs < fuel
    → (strcmp fuel cs ct m ≡ some (text_order xs ys))
      × (text_order xs ys ≡ zero_sign → xs ≡ ys)
      × (xs ≡ ys → text_order xs ys ≡ zero_sign)
strcmp-text_order fuel cs ct m xs ys t u a b lt = (
  strcmp-order fuel cs ct m xs ys t u a b lt,
  text_order-zero xs ys,
  λ e. ap (text_order xs) (sym e) ∙ text_order-same xs,
)

-- For texts of bytes below 256: `strncmp` is the order of their first `count` bytes.
pub strncmp-text_order :
    (cs ct count : ℕ) (m : Bytes) (xs ys : List ℕ)
    → IsText m cs xs
    → IsText m ct ys
    → AreBytes xs
    → AreBytes ys
    → strncmp cs ct count m ≡ text_order (take count xs) (take count ys)
unfolding strncmp text_order
strncmp-text_order cs ct zero m xs ys t u a b = refl
strncmp-text_order cs ct (suc n) m [] [] t u a b = ground arith
strncmp-text_order cs ct (suc n) m [] (y ∷ ys) t u a (one_byte q b) =
    ground (arith, byte_order-sign y 0)
strncmp-text_order cs ct (suc n) m (x ∷ xs) [] t u (one_byte p a) b =
    ground (arith, byte_order-sign 0 x)
strncmp-text_order cs ct (suc n) m (x ∷ xs) (y ∷ ys) t u (one_byte p a) (one_byte q b) =
    ground (arith, byte_order-sign y x, strncmp-text_order (cs + 1) (ct + 1) n m xs ys t.2 u.2 a b)
