-- ===== src/Fork/Limits.antt =====
-- `set_limit` and `get_limit` of include/linux/sched.h.
use mockos.Prelude.{ℕ, ◌+◌, ◌-◌, ◌*◌, ◌/◌, ◌^◌, ◌<◌, ◌≤◌, ◌≡◌, arith}
use mockos.Segment.{Desc, get_base, set_limit}
use mockos.Segment.Fields.{IsDesc, access, flags, limit}
use mockos.Fork.Copy.{get_limit}

set_limit-limit :
    (p : Desc) (n : ℕ)
    → IsDesc p
    → 1 ≤ n
    → n < 2 ^ 32
    → (limit (set_limit p n) ≡ (n - 1) / 2 ^ 12)
      × (get_base (set_limit p n) ≡ get_base p)
      × (access (set_limit p n) ≡ access p)
      × (flags (set_limit p n) ≡ flags p)
unfolding set_limit get_base
set_limit-limit p n w lo lt = (
  omega (arith, w.a_word, w.b_word),
  omega (arith, w.a_word, w.b_word),
  omega (arith, w.a_word, w.b_word),
  omega (arith, w.a_word, w.b_word),
)

-- For a descriptor and a limit of 1 to 2 ^ 32 - 4096: with units of 4 KB, `get_limit` reads what `set_limit`
-- wrote, rounded up to whole pages, and with units of bytes it reads the number of those pages. The base,
-- the access byte and the flags are as before.
pub get_limit-set_limit :
    (p : Desc) (n : ℕ)
    → IsDesc p
    → 1 ≤ n
    → n ≤ 2 ^ 32 - 4096
    → (flags p / 2 ^ 3 ≡ 1 → get_limit (set_limit p n) ≡ (n + 4095) / 4096 * 4096)
      × (flags p / 2 ^ 3 ≡ 0 → get_limit (set_limit p n) ≡ (n + 4095) / 4096)
      × (get_base (set_limit p n) ≡ get_base p)
      × (access (set_limit p n) ≡ access p)
      × (flags (set_limit p n) ≡ flags p)
unfolding get_limit
get_limit-set_limit p n w lo hi =
    let (l, base, a, f) = set_limit-limit p n w lo (omega arith) in
    (λ g. rw (l, f, g) (omega arith), λ g. rw (l, f, g) (omega arith), base, a, f)
