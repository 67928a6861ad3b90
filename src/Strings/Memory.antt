-- ===== src/Strings/Memory.antt =====
-- `memcpy`, `memmove`, `memcmp` and `memset` of include/string.h.
use mockos.Prelude.{
  leb, ◌||◌, update, ℕ, zero, suc, ◌+◌, ◌-◌, ◌<◌, ◌≤◌, ◌≡◌, ◌⊎◌, inl, inr, refl, sym, ap, ◌∙◌,
  arith, ◌==◌, ltb, Bool, true, false, List, [], ◌∷◌, length, if◌then◌else◌, Bool-cases,
}
use mockos.Mm.State.{fill, fill_in, fill_out}
use mockos.Strings.{Bytes, Sign, minus_one, zero_sign, plus_one, sign_of_difference}
use mockos.Strings.Text.{Stands}
use mockos.Strings.Copy.{Outside}
use mockos.Strings.Compare.{text_order, AreBytes, one_byte, byte_order-sign}

-- cld; rep movsb
unfoldable pub copy_up : (ecx esi edi : ℕ) → Bytes → Bytes
copy_up zero esi edi m = m
copy_up (suc n) esi edi m = copy_up n (esi + 1) (edi + 1) (update m edi (m esi))

-- std; rep movsb, where `esi` and `edi` are the addresses behind the bytes to copy first
unfoldable pub copy_down : (ecx esi edi : ℕ) → Bytes → Bytes
copy_down zero esi edi m = m
copy_down (suc n) esi edi m = copy_down n (esi - 1) (edi - 1) (update m (edi - 1) (m (esi - 1)))

unfoldable pub memcpy : (dest src n : ℕ) → Bytes → Bytes
memcpy dest src n m = copy_up n src dest m

-- The memory, and whether the direction flag is left set.
unfoldable pub memmove : (dest src n : ℕ) → Bytes → Bytes × Bool
memmove dest src n m =
    if ltb dest src
    then (copy_up n src dest m, false)
    else (copy_down n (src + n) (dest + n) m, true)

-- repe cmpsb, then `je` and `jl`: with no round the flags are those at the call.
unfoldable pub memcmp : (cs ct count : ℕ) → (zf less : Bool) → Bytes → Sign
memcmp cs ct zero zf less m = if zf then zero_sign else if less then plus_one else minus_one
memcmp cs ct (suc n) zf less m = elim (m ct == m cs) [
  | true ↦ memcmp (cs + 1) (ct + 1) n true false m
  | false ↦ sign_of_difference (m ct) (m cs)
]

-- rep stosb
unfoldable pub memset : (s c count : ℕ) → Bytes → Bytes
memset s c count m = fill count s c m

copy_up-Outside : (n esi edi : ℕ) (m : Bytes) → Outside (copy_up n esi edi m) m edi n
unfolding copy_up
copy_up-Outside zero esi edi m b out = refl
copy_up-Outside (suc n) esi edi m b out =
    copy_up-Outside n (esi + 1) (edi + 1) (update m edi (m esi)) b (omega arith) ∙ ground arith

-- Upwards, a target below the source is safe.
copy_up-bytes :
    (n esi edi : ℕ) (m : Bytes) (k : ℕ)
    → (edi < esi) ⊎ (esi + n ≤ edi)
    → k < n
    → copy_up n esi edi m (edi + k) ≡ m (esi + k)
unfolding copy_up
copy_up-bytes zero esi edi m k below lt = absurd (omega arith)
copy_up-bytes (suc n) esi edi m zero below lt =
    copy_up-Outside n (esi + 1) (edi + 1) (update m edi (m esi)) (edi + 0) (omega arith)
    ∙ ground arith
copy_up-bytes (suc n) esi edi m (suc k) below lt =
    ap (copy_up n (esi + 1) (edi + 1) (update m edi (m esi))) (omega arith)
    ∙ (copy_up-bytes n (esi + 1) (edi + 1) (update m edi (m esi)) k (omega arith) (omega arith)
        ∙ ground arith)

copy_down-Outside :
    (n dest esi edi : ℕ) (m : Bytes) → edi ≡ dest + n → Outside (copy_down n esi edi m) m dest n
unfolding copy_down
copy_down-Outside zero dest esi edi m e b out = refl
copy_down-Outside (suc n) dest esi edi m e b out =
    copy_down-Outside n dest (esi - 1) (edi - 1) (update m (edi - 1) (m (esi - 1))) (omega arith) b
      (omega arith)
    ∙ ground arith

-- Downwards, a target from the source on is safe.
copy_down-bytes :
    (n src dest esi edi : ℕ) (m : Bytes) (k : ℕ)
    → esi ≡ src + n
    → edi ≡ dest + n
    → src ≤ dest
    → k < n
    → copy_down n esi edi m (dest + k) ≡ m (src + k)
unfolding copy_down
copy_down-bytes zero src dest esi edi m k d e above lt = absurd (omega arith)
copy_down-bytes (suc n) src dest esi edi m k d e above lt =
    let m' = update m (edi - 1) (m (esi - 1)) in
    elim (Bool-cases (k == n)) [
      | inl q ↦
          copy_down-Outside n dest (esi - 1) (edi - 1) m' (omega arith) (dest + k) (ground arith)
          ∙ ground arith
      | inr q ↦
          copy_down-bytes n src dest (esi - 1) (edi - 1) m' k (omega arith) (omega arith) above
            (ground arith)
          ∙ ground arith
    ]

-- However the two ranges of `n` bytes overlap: behind `memmove` the bytes from `dest` on are those
-- that stood from `src` on, and no other byte changes.
pub memmove-bytes :
    (dest src n : ℕ) (m : Bytes)
    → ((k : ℕ) → k < n → (memmove dest src n m).0 (dest + k) ≡ m (src + k))
      × Outside (memmove dest src n m).0 m dest n
unfolding memmove
memmove-bytes dest src n m = elim (Bool-cases (ltb dest src)) [
  | inl e ↦
      rw (e, memmove)
        (λ k lt. copy_up-bytes n src dest m k (ground arith) lt, copy_up-Outside n src dest m)
  | inr e ↦
      rw (e, memmove)
        (
          λ k lt. copy_down-bytes n src dest (src + n) (dest + n) m k refl refl (ground arith) lt,
          copy_down-Outside n dest (src + n) (dest + n) m refl,
        )
]

-- Where `memcpy` may be used, when the target does not begin inside the source, it leaves the same
-- memory as `memmove`, at every address.
pub memcpy-memmove :
    (dest src n : ℕ) (m : Bytes) (a : ℕ)
    → (dest < src) ⊎ (src + n ≤ dest)
    → memcpy dest src n m a ≡ (memmove dest src n m).0 a
unfolding memcpy
memcpy-memmove dest src n m a safe =
    let (bytes, out) = memmove-bytes dest src n m in
    elim (Bool-cases (ltb a dest || leb (dest + n) a)) [
      | inl e ↦ copy_up-Outside n src dest m a (ground arith) ∙ sym (out a (ground arith))
      | inr e ↦
          let at : a ≡ dest + (a - dest) = ground arith in
          ap (copy_up n src dest m) at
          ∙ (copy_up-bytes n src dest m (a - dest) safe (ground arith)
              ∙ (sym (bytes (a - dest) (ground arith)) ∙ ap (memmove dest src n m).0 (sym at)))
    ]

-- For bytes `xs` at `cs` and as many bytes `ys` at `ct`, all below 256 and at least one:
-- `memcmp` is their order, that of the first bytes that differ as signed chars, whatever the flags
-- are at the call.
pub memcmp-text_order :
    (cs ct : ℕ) (zf less : Bool) (m : Bytes) (xs ys : List ℕ)
    → Stands m cs xs
    → Stands m ct ys
    → length xs ≡ length ys
    → AreBytes xs
    → AreBytes ys
    → 0 < length xs
    → memcmp cs ct (length xs) zf less m ≡ text_order xs ys
unfolding memcmp text_order
memcmp-text_order cs ct zf less m [] ys t u e a b lt = absurd (omega arith)
memcmp-text_order cs ct zf less m (x ∷ xs) [] t u e a b lt = absurd (omega arith)
memcmp-text_order cs ct zf less m (x ∷ []) (y ∷ []) t u e (one_byte p a) (one_byte q b) lt =
    ground (arith, byte_order-sign y x)
memcmp-text_order cs ct zf less m (x ∷ []) (y ∷ (z ∷ ys)) t u e a b lt = absurd (omega arith)
memcmp-text_order cs ct zf less m (x ∷ (w ∷ xs)) (y ∷ ys) t u e (one_byte p a) (one_byte q b) lt =
    ground (
      arith,
      byte_order-sign y x,
      memcmp-text_order (cs + 1) (ct + 1) true false m (w ∷ xs) ys t.1 u.1 (omega arith) a b
          (omega arith),
    )

-- `memset` stores `c` in the `count` bytes from `s` on and changes no other byte.
pub memset-bytes :
    (s c count : ℕ) (m : Bytes)
    → ((k : ℕ) → k < count → memset s c count m (s + k) ≡ c)
      × Outside (memset s c count m) m s count
unfolding memset
memset-bytes s c count m = (
  λ k lt. fill_in count s c m (s + k) (omega arith) (omega arith),
  λ b out. fill_out count s c m b out,
)
