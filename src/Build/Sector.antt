-- ===== src/Build/Sector.antt =====
-- The bytes of the boot sector with the numbers of the devices in tools/build.c.
use mockos.Prelude.{
  ℕ, zero, suc, ◌+◌, ◌<◌, ◌≡◌, refl, ap, ◌∙◌, arith, ◌==◌, List, [], ◌∷◌, ◌++◌, length,
  if◌then◌else◌,
}
use mockos.Build.{Devices, byte, set_byte, set_devices}

length-set_byte : (xs : List ℕ) (k v : ℕ) → length (set_byte xs k v) ≡ length xs
length-set_byte [] k v = refl
length-set_byte (x ∷ xs) zero v = refl
length-set_byte (x ∷ xs) (suc k) v = ap suc (length-set_byte xs k v)

byte-set_byte :
    (xs : List ℕ) (k v j : ℕ)
    → k < length xs
    → byte (set_byte xs k v) j ≡ (if j == k then v else byte xs j)
byte-set_byte [] k v j lt = absurd (omega arith)
byte-set_byte (x ∷ xs) zero v zero lt = refl
byte-set_byte (x ∷ xs) zero v (suc j) lt = ground arith
byte-set_byte (x ∷ xs) (suc k) v zero lt = ground arith
byte-set_byte (x ∷ xs) (suc k) v (suc j) lt = ground (arith, byte-set_byte xs k v j)

pub byte-append : (xs ys : List ℕ) (k : ℕ) → k < length xs → byte (xs ++ ys) k ≡ byte xs k
byte-append [] ys k lt = absurd (omega arith)
byte-append (x ∷ xs) ys zero lt = refl
byte-append (x ∷ xs) ys (suc k) lt = byte-append xs ys k (omega arith)

pub length-set_devices : (d : Devices) (xs : List ℕ) → length (set_devices d xs) ≡ length xs
length-set_devices d xs =
    let s₁ = set_byte xs 506 d.swap.minor in
    let s₂ = set_byte s₁ 507 d.swap.major in
    let s₃ = set_byte s₂ 508 d.root.minor in
    length-set_byte s₃ 509 d.root.major
    ∙ (length-set_byte s₂ 508 d.root.minor
        ∙ (length-set_byte s₁ 507 d.swap.major ∙ length-set_byte xs 506 d.swap.minor))

-- The byte `k` of the boot sector with the devices.
abbrev pub device_byte : Devices → List ℕ → ℕ → ℕ
device_byte d xs k =
    if k == 509
    then d.root.major
    else if k == 508
    then d.root.minor
    else if k == 507
    then d.swap.major
    else if k == 506
    then d.swap.minor
    else byte xs k

pub byte-set_devices :
    (d : Devices) (xs : List ℕ) (k : ℕ)
    → length xs ≡ 512
    → byte (set_devices d xs) k ≡ device_byte d xs k
byte-set_devices d xs k size =
    let s₁ = set_byte xs 506 d.swap.minor in
    let s₂ = set_byte s₁ 507 d.swap.major in
    let s₃ = set_byte s₂ 508 d.root.minor in
    let l₁ = length-set_byte xs 506 d.swap.minor ∙ size in
    let l₂ = length-set_byte s₁ 507 d.swap.major ∙ l₁ in
    let l₃ = length-set_byte s₂ 508 d.root.minor ∙ l₂ in
    byte-set_byte s₃ 509 d.root.major k (omega (arith, l₃))
    ∙ ap (λ x. if k == 509 then d.root.major else x)
        (byte-set_byte s₂ 508 d.root.minor k (omega (arith, l₂))
          ∙ ap (λ x. if k == 508 then d.root.minor else x)
              (byte-set_byte s₁ 507 d.swap.major k (omega (arith, l₁))
                ∙ ap (λ x. if k == 507 then d.swap.major else x)
                    (byte-set_byte xs 506 d.swap.minor k (omega (arith, size)))))

pub byte-behind : (xs ys : List ℕ) (k : ℕ) → byte (xs ++ ys) (length xs + k) ≡ byte ys k
byte-behind [] ys k = ap (byte ys) (omega arith)
byte-behind (x ∷ xs) ys k =
    ap (byte (x ∷ (xs ++ ys))) {x = length (x ∷ xs) + k} {y = suc (length xs + k)} (omega arith)
    ∙ byte-behind xs ys k
