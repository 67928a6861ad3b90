-- ===== src/Strings/Find.antt =====
-- The searches of include/string.h: `strchr`, `strrchr`, `strspn`, `strcspn`, `strpbrk`, `strstr`,
-- `strtok` and `memchr`. The proofs are in the children.
pub mod Sets
pub mod Places
pub mod Substring
pub mod Tokens
use mockos.Prelude.{
  update, ℕ, zero, suc, ◌+◌, ◌-◌, ◌^◌, ◌==◌, not, Bool, true, false, Option, none, some,
  if◌then◌else◌,
}
use mockos.Strings.{Bytes, repne_scasb, strlen}

-- An address or NULL, which is 0. The loops are on fuel.
unfoldable pub strchr : (fuel s c : ℕ) → Bytes → Option ℕ
strchr zero s c m = none
strchr (suc n) s c m = elim (m s == c) [
  | true ↦ some s
  | false ↦ elim (m s == 0) [ true ↦ some 0 | false ↦ strchr n (s + 1) c m ]
]

-- `found` is the register %edx, with the last address so far.
unfoldable pub find_last : (fuel esi found c : ℕ) → Bytes → Option ℕ
find_last zero esi found c m = none
find_last (suc n) esi found c m =
    let found' = if m esi == c then esi else found in
    elim (m esi == 0) [ true ↦ some found' | false ↦ find_last n (esi + 1) found' c m ]

unfoldable pub strrchr : (fuel s c : ℕ) → Bytes → Option ℕ
strrchr fuel s c m = find_last fuel s 0 c m

-- movl ct,%edi; movl %edx,%ecx; repne scasb: whether the byte `al`, which is not 0, is in the set.
abbrev pub in_set : (ct edx al : ℕ) → Bytes → Bool
in_set ct edx al m = (repne_scasb edx ct al false m).zf

-- 1: lodsb ... je 1b: to the first byte that is 0 or for which the test `stay` fails, on fuel.
unfoldable pub skip_while : (stay : ℕ → Bool) → (fuel esi : ℕ) → Bytes → Option ℕ
skip_while stay zero esi m = none
skip_while stay (suc n) esi m = elim (m esi == 0) [
  | true ↦ some esi
  | false ↦ elim (stay (m esi)) [ true ↦ skip_while stay n (esi + 1) m | false ↦ some esi ]
]

-- je 1b, of `strspn`, and jne 1b, of `strcspn`
abbrev pub skip_set : (fuel esi ct : ℕ) → Bytes → Option ℕ
skip_set fuel esi ct m = skip_while (λ al. in_set ct (strlen ct m) al m) fuel esi m

abbrev pub skip_others : (fuel esi ct : ℕ) → Bytes → Option ℕ
skip_others fuel esi ct m = skip_while (λ al. not (in_set ct (strlen ct m) al m)) fuel esi m

abbrev pub map_address : (ℕ → ℕ) → Option ℕ → Option ℕ
map_address f none = none
map_address f (some a) = some (f a)

unfoldable pub strspn : (fuel cs ct : ℕ) → Bytes → Option ℕ
strspn fuel cs ct m = map_address (λ esi. esi - cs) (skip_set fuel cs ct m)

unfoldable pub strcspn : (fuel cs ct : ℕ) → Bytes → Option ℕ
strcspn fuel cs ct m = map_address (λ esi. esi - cs) (skip_others fuel cs ct m)

unfoldable pub strpbrk : (fuel cs ct : ℕ) → Bytes → Option ℕ
strpbrk fuel cs ct m = map_address (λ esi. if m esi == 0 then 0 else esi) (skip_others fuel cs ct m)

-- The registers behind `repe cmpsb`.
pub record Comparison : Type 0 where
  pub esi : ℕ
  pub zf : Bool

unfoldable pub repe_cmpsb : (ecx esi edi : ℕ) → Bool → Bytes → Comparison
repe_cmpsb zero esi edi zf m = record { esi = esi; zf = zf }
repe_cmpsb (suc n) esi edi zf m = elim (m esi == m edi) [
  | true ↦ repe_cmpsb n (esi + 1) (edi + 1) true m
  | false ↦ record { esi = esi + 1; zf = false }
]

-- For the length `edx`; the flag of `decl` is set if that is 0.
unfoldable pub find_text : (fuel esi ct edx : ℕ) → Bytes → Option ℕ
find_text zero esi ct edx m = none
find_text (suc n) esi ct edx m =
    let r = repe_cmpsb edx esi ct (edx == 0) m in
    elim r.zf [
      | true ↦ some esi
      | false ↦ elim (m (r.esi - 1) == 0) [ true ↦ some 0 | false ↦ find_text n (esi + 1) ct edx m ]
    ]

unfoldable pub strstr : (fuel cs ct : ℕ) → Bytes → Option ℕ
strstr fuel cs ct m = find_text fuel cs ct (strlen ct m) m

unfoldable pub memchr : (cs c count : ℕ) → Bytes → ℕ
memchr cs c zero m = 0
memchr cs c (suc n) m = let r = repne_scasb (suc n) cs c false m in if r.zf then r.edi - 1 else 0

-- The result of `strtok`, `___strtok` behind it, and the memory.
pub record Token : Type 0 where
  pub result : ℕ
  pub next : ℕ
  pub bytes : Bytes

-- From the label 3 on: the token starts at `start`, and `stop` is the first byte behind it.
abbrev pub cut_token : (start stop : ℕ) → Bytes → Token
cut_token start stop m =
    let m' = if m stop == 0 then m else update m stop 0 in
    let next = if m stop == 0 then 0 else stop + 1 in
    if m' start == 0
    then record { result = 0; next = 0; bytes = m' }
    else record { result = start; next = next; bytes = m' }

abbrev pub no_token : Bytes → Token
no_token m = record { result = 0; next = 0; bytes = m }

-- From the label 2 on.
abbrev pub token_from : (fuel ct start : ℕ) → Bytes → Option Token
token_from fuel ct start m = elim (m start == 0) [
  | true ↦ some (no_token m)
  | false ↦ elim (skip_others fuel start ct m) [
    | none ↦ none
    | some stop ↦ some (cut_token start stop m)
  ]
]

-- From the label 1 on, where `esi` is not NULL.
unfoldable pub next_token : (fuel esi ct : ℕ) → Bytes → Option Token
next_token fuel esi ct m = elim (strlen ct m == 0) [
  | true ↦ some (no_token m)
  | false ↦ elim (skip_set fuel esi ct m) [ none ↦ none | some start ↦ token_from fuel ct start m ]
]

-- `saved` is `___strtok` at the call.
unfoldable pub strtok : (fuel s ct saved : ℕ) → Bytes → Option Token
strtok fuel s ct saved m =
    let esi = if s == 0 then saved else s in
    elim (esi == 0) [ true ↦ some (no_token m) | false ↦ next_token fuel esi ct m ]
