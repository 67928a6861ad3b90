-- ===== src/Strings/Find/Tokens.antt =====
-- `strtok` of include/string.h cuts a text at the bytes of a set.
use mockos.Prelude.{
  update, ℕ, ◌+◌, ◌^◌, ◌<◌, ◌≡◌, ◌≢◌, inl, inr, refl, sym, ap, ◌∙◌, subst, arith, ◌==◌, not, Bool,
  true, false, List, [], ◌∷◌, ◌++◌, length, length-append, some, if◌then◌else◌, Bool-cases,
}
use mockos.Strings.{Bytes, strlen}
use mockos.Strings.Text.{IsText, Agree-IsText, strlen-length}
use mockos.Strings.Find.{skip_set, skip_others, Token, next_token, strtok}
use mockos.Strings.Find.Sets.{member, span, skip_set-span, skip_others-span}

-- A test that holds for all bytes of a list.
abbrev pub Passes : (ℕ → Bool) → List ℕ → Type 0
Passes p [] = Unit
Passes p (x ∷ xs) = (p x ≡ true) × Passes p xs

span-all : (p : ℕ → Bool) (xs : List ℕ) → Passes p xs → span p xs ≡ length xs
unfolding span
span-all p [] h = refl
span-all p (x ∷ xs) (e, h) = ground (arith, span-all p xs h)

span-append :
    (p : ℕ → Bool) (xs : List ℕ) (d : ℕ) (ys : List ℕ)
    → Passes p xs
    → p d ≡ false
    → span p (xs ++ d ∷ ys) ≡ length xs
unfolding span
span-append p [] d ys h f = ground arith
span-append p (x ∷ xs) d ys (e, h) f = ground (arith, span-append p xs d ys h f)

-- What stands behind the first bytes of a text.
IsText-behind :
    (m : Bytes) (s : ℕ) (xs ys : List ℕ) → IsText m s (xs ++ ys) → IsText m (s + length xs) ys
IsText-behind m s [] ys t = subst (λ a. IsText m a ys) (omega arith) t
IsText-behind m s (x ∷ xs) ys (e, ne, t) =
    subst (λ a. IsText m a ys) (omega arith) (IsText-behind m (s + 1) xs ys t)

-- A byte 0 stored in a text ends it there.
IsText-cut :
    (m : Bytes) (s : ℕ) (xs ys : List ℕ)
    → IsText m s (xs ++ ys)
    → IsText (update m (s + length xs) 0) s xs
IsText-cut m s [] ys t = ground arith
IsText-cut m s (x ∷ xs) ys (e, ne, t) = (
  ground arith,
  ne,
  subst (λ a. IsText (update m a 0) (s + 1) xs) (omega arith) (IsText-cut m (s + 1) xs ys t),
)

-- The set has the bytes `ds`: a token is bytes outside it, at least one of them.
pub record IsToken (ds tok : List ℕ) : Type 0 where
  pub outside : Passes (λ a. not (member a ds)) tok
  pub some_byte : 0 < length tok

span-token :
    (p : ℕ → Bool) (xs tok ys : List ℕ)
    → Passes p xs
    → Passes (λ a. not (p a)) tok
    → 0 < length tok
    → span p (xs ++ (tok ++ ys)) ≡ length xs
span-token p xs [] ys h o lt = absurd (omega arith)
span-token p xs (c ∷ tok) ys h o lt = span-append p xs c (tok ++ ys) h (ground (arith, o.0))

first_byte :
    (m : Bytes) (s : ℕ) (tok ys : List ℕ) → IsText m s (tok ++ ys) → 0 < length tok → m s ≢ 0
first_byte m s [] ys t lt = absurd (omega arith)
first_byte m s (c ∷ tok) ys (e, ne, t) lt = λ z. ne (sym e ∙ z)

member-length : (d : ℕ) (ds : List ℕ) → member d ds ≡ true → (length ds == 0) ≡ false
unfolding member
member-length d [] h = cc
member-length d (x ∷ xs) h = ground arith

-- What `next_token` answers when the text is `pre`, a token, a byte of the set, and `rest`.
module _ (fuel a ct : ℕ) (m : Bytes) (ds pre tok rest : List ℕ) (d : ℕ)
    (t : IsText m a (pre ++ (tok ++ d ∷ rest))) (u : IsText m ct ds)
    (small : length ds + 1 < 2 ^ 32) (lt : length (pre ++ (tok ++ d ∷ rest)) < fuel)
    (inside : Passes (λ b. member b ds) pre) (token : IsToken ds tok)
    (cut : member d ds ≡ true) where
  abbrev start : ℕ
  start = a + length pre

  abbrev stop : ℕ
  stop = start + length tok

  start-IsText : IsText m start (tok ++ d ∷ rest)
  start-IsText = IsText-behind m a pre (tok ++ d ∷ rest) t

  stop-IsText : IsText m stop (d ∷ rest)
  stop-IsText = IsText-behind m start tok (d ∷ rest) start-IsText

  skips : skip_set fuel a ct m ≡ some start
  skips =
      skip_set-span fuel a ct m (pre ++ (tok ++ d ∷ rest)) ds t u small lt
      ∙ ap (λ n. some (a + n))
          (span-token (λ b. member b ds) pre tok (d ∷ rest) inside token.outside token.some_byte)

  stops : skip_others fuel start ct m ≡ some stop
  stops =
      skip_others-span fuel start ct m (tok ++ d ∷ rest) ds start-IsText u small
        (omega (arith, lt, length-append pre (tok ++ d ∷ rest)))
      ∙ ap (λ n. some (start + n))
          (span-append (λ b. not (member b ds)) tok d rest token.outside (ap not cut))

  set_lem : (strlen ct m == 0) ≡ false
  set_lem = rw (strlen-length ct m ds u small) (member-length d ds cut)

  next_token-cut :
      next_token fuel a ct m
      ≡ some (record { result = start; next = stop + 1; bytes = update m stop 0 })
  unfolding next_token
  next_token-cut =
      let filled : (m start == 0) ≡ false =
        ground (arith, first_byte m start tok (d ∷ rest) start-IsText token.some_byte) in
      let ended : (m stop == 0) ≡ false = ground (arith, stop-IsText.0, stop-IsText.1) in
      let kept : (update m stop 0 start == 0) ≡ false = ground (arith, token.some_byte) in
      ground (arith, set_lem, skips, stops, filled, ended, kept)

strtok-next_token :
    (fuel s saved a ct : ℕ) (m : Bytes)
    → a ≡ (if s == 0 then saved else s)
    → a ≢ 0
    → strtok fuel s ct saved m ≡ next_token fuel a ct m
unfolding strtok
strtok-next_token fuel s saved a ct m at exists = elim (Bool-cases (s == 0)) [
  | inl e ↦ ground (arith, at, exists)
  | inr e ↦ ground (arith, at, exists)
]

-- A call with a text at `a`, which is `s`, or `___strtok` if `s` is NULL, whose bytes are `pre` in
-- the set, then a token, which has at least one byte and none in the set, then a byte of the set,
-- then `rest`; the set's text is shorter than 2 ^ 32 - 1 bytes and there are more rounds than the text
-- has bytes. `strtok` ends with the address of the token, which now ends with a byte 0, `___strtok`
-- is the address of `rest`, which is still there, and no byte changes but the one behind the token.
pub strtok-IsText :
    (fuel s saved a ct : ℕ) (m : Bytes) (ds pre tok rest : List ℕ) (d : ℕ)
    → a ≡ (if s == 0 then saved else s)
    → a ≢ 0
    → IsText m a (pre ++ (tok ++ d ∷ rest))
    → IsText m ct ds
    → length ds + 1 < 2 ^ 32
    → length (pre ++ (tok ++ d ∷ rest)) < fuel
    → Passes (λ b. member b ds) pre
    → IsToken ds tok
    → member d ds ≡ true
    → (t : Token) × (strtok fuel s ct saved m ≡ some t)
      × (t.result ≡ a + length pre)
      × IsText t.bytes t.result tok
      × (t.next ≡ t.result + length tok + 1)
      × IsText t.bytes t.next rest
      × ((b : ℕ) → b ≢ t.result + length tok → t.bytes b ≡ m b)
strtok-IsText fuel s saved a ct m ds pre tok rest d at exists t u small lt inside token cut =
    let start = a + length pre in
    let stop = start + length tok in
    let here = IsText-behind m a pre (tok ++ d ∷ rest) t in
    let (e, ne, later) = IsText-behind m start tok (d ∷ rest) here in
    let ran = next_token-cut fuel a ct m ds pre tok rest d t u small lt inside token cut in
    (
      record { result = start; next = stop + 1; bytes = update m stop 0 },
      strtok-next_token fuel s saved a ct m at exists ∙ ran,
      refl,
      IsText-cut m start tok (d ∷ rest) here,
      refl,
      Agree-IsText (stop + 1) rest (λ b lo hi. ground arith) later,
      λ b other. ground arith,
    )
