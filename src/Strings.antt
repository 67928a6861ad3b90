-- ===== src/Strings.antt =====
-- include/string.h: the string instructions as loops over the bytes of the memory, and the functions
-- that are made of them. The proofs are in the children.
pub mod Text
pub mod Copy
pub mod Compare
pub mod Find
pub mod Memory
use mockos.Prelude.{
  update, ℕ, zero, suc, ◌+◌, ◌-◌, ◌^◌, ◌==◌, ltb, Bool, true, false, Option, none, some,
  if◌then◌else◌,
}
use mockos.Mm.State.{fill}

-- The byte at each address. Addresses do not wrap.
abbrev pub Bytes : Type 0
Bytes = ℕ → ℕ

-- The registers behind `repne scasb` and `repe cmpsb`: the rounds that are left, the address behind
-- the last byte compared, and whether that comparison found equal bytes.
pub record Scan : Type 0 where
  pub ecx : ℕ
  pub edi : ℕ
  pub zf : Bool

-- cld; repne scasb: with no round the flag is what it was.
unfoldable pub repne_scasb : (ecx edi al : ℕ) → Bool → Bytes → Scan
repne_scasb zero edi al zf m = record { ecx = 0; edi = edi; zf = zf }
repne_scasb (suc n) edi al zf m = elim (m edi == al) [
  | true ↦ record { ecx = n; edi = edi + 1; zf = true }
  | false ↦ repne_scasb n (edi + 1) al false m
]

-- The scan for the end of a text, with the count 0xffffffff.
abbrev pub scan_end : (s : ℕ) → Bytes → Scan
scan_end s m = repne_scasb (2 ^ 32 - 1) s 0 false m

-- notl %ecx; decl %ecx
abbrev pub count_of : Scan → ℕ
count_of r = 2 ^ 32 - 1 - r.ecx - 1

unfoldable pub strlen : (s : ℕ) → Bytes → ℕ
strlen s m = count_of (scan_end s m)

-- 1: lodsb; stosb; testb %al,%al; jne 1b, on fuel
unfoldable pub copy_text : (fuel esi edi : ℕ) → Bytes → Option Bytes
copy_text zero esi edi m = none
copy_text (suc n) esi edi m = elim (m esi == 0) [
  | true ↦ some (update m edi (m esi))
  | false ↦ copy_text n (esi + 1) (edi + 1) (update m edi (m esi))
]

-- The functions that return `dest` have the memory as their result.
unfoldable pub strcpy : (fuel dest src : ℕ) → Bytes → Option Bytes
strcpy fuel dest src m = copy_text fuel src dest m

-- The rounds that `decl` counts down; behind the end of the text `rep stosb` fills the rest.
unfoldable pub strncpy : (dest src count : ℕ) → Bytes → Bytes
strncpy dest src zero m = m
strncpy dest src (suc n) m = elim (m src == 0) [
  | true ↦ fill n (dest + 1) (m src) (update m dest (m src))
  | false ↦ strncpy (dest + 1) (src + 1) n (update m dest (m src))
]

unfoldable pub strcat : (fuel dest src : ℕ) → Bytes → Option Bytes
strcat fuel dest src m = copy_text fuel src ((scan_end dest m).edi - 1) m

-- At most `count` bytes, and behind them, or behind the byte 0 that was copied, another byte 0.
unfoldable pub append_bytes : (count esi edi : ℕ) → Bytes → Bytes
append_bytes zero esi edi m = update m edi 0
append_bytes (suc n) esi edi m = elim (m esi == 0) [
  | true ↦ update (update m edi (m esi)) (edi + 1) 0
  | false ↦ append_bytes n (esi + 1) (edi + 1) (update m edi (m esi))
]

unfoldable pub strncat : (dest src count : ℕ) → Bytes → Bytes
strncat dest src count m = append_bytes count src ((scan_end dest m).edi - 1) m

-- `jl` behind a comparison of the bytes `a` and `b`: a is below b as a signed char.
abbrev pub char_value : ℕ → ℕ
char_value a = if ltb a 128 then a + 128 else a - 128

-- movl $1,%eax; jl; negl: the bytes are those of `ct` and of `cs`, which differ.
pub data Sign : Type 0 where
  minus_one zero_sign plus_one : Sign

abbrev pub sign_of_difference : (ct cs : ℕ) → Sign
sign_of_difference ct cs = if ltb (char_value ct) (char_value cs) then plus_one else minus_one

unfoldable pub strcmp : (fuel cs ct : ℕ) → Bytes → Option Sign
strcmp zero cs ct m = none
strcmp (suc n) cs ct m = elim (m ct == m cs) [
  | true ↦ elim (m ct == 0) [ true ↦ some zero_sign | false ↦ strcmp n (cs + 1) (ct + 1) m ]
  | false ↦ some (sign_of_difference (m ct) (m cs))
]

unfoldable pub strncmp : (cs ct count : ℕ) → Bytes → Sign
strncmp cs ct zero m = zero_sign
strncmp cs ct (suc n) m = elim (m ct == m cs) [
  | true ↦ elim (m ct == 0) [ true ↦ zero_sign | false ↦ strncmp (cs + 1) (ct + 1) n m ]
  | false ↦ sign_of_difference (m ct) (m cs)
]
