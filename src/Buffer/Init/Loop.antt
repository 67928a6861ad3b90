-- ===== src/Buffer/Init/Loop.antt =====
-- The loop of `buffer_init` of fs/buffer.c, which sets up one head in each round.
use mockos.Prelude.{
  ℕ, zero, suc, ◌+◌, ◌-◌, ◌*◌, ◌/◌, ◌^◌, ◌<◌, ◌≤◌, ◌≡◌, ◌⊎◌, inl, inr, refl, subst, ◌∙◌, arith,
  ◌==◌, leb, true, All, some, if◌then◌else◌, Bool-cases,
}
use mockos.Prelude.Word.{sub32}
use mockos.Buffer.{HeadPtr, Cache}
use mockos.Buffer.Init.{head_size, heads, init_head, init_heads}

-- A head as the loop leaves it. Its block lies behind all heads, which end at `e`.
pub record IsInitial (t : Cache) (e x : HeadPtr) : Type 0 where
  pub next_free : t.b_next_free x ≡ x + head_size
  pub prev_free : t.b_prev_free x ≡ x - head_size
  pub no_dev : t.b_dev x ≡ 0
  pub no_next : t.b_next x ≡ 0
  pub no_prev : t.b_prev x ≡ 0
  pub unused : t.b_count x ≡ 0
  pub clean : t.b_dirt x ≡ 0
  pub unlocked : t.b_lock x ≡ 0
  pub data_behind : e ≤ t.b_data x

-- What the stores to later heads leave alone.
pub record SameAt (s t : Cache) (x : HeadPtr) : Type 0 where
  next_free : t.b_next_free x ≡ s.b_next_free x
  prev_free : t.b_prev_free x ≡ s.b_prev_free x
  dev : t.b_dev x ≡ s.b_dev x
  next : t.b_next x ≡ s.b_next x
  prev : t.b_prev x ≡ s.b_prev x
  count : t.b_count x ≡ s.b_count x
  dirt : t.b_dirt x ≡ s.b_dirt x
  lock : t.b_lock x ≡ s.b_lock x
  block : t.b_data x ≡ s.b_data x

first_head : (h b e : ℕ) (s t : Cache) → e ≤ b → SameAt (init_head h b s) t h → IsInitial t e h
unfolding init_head
first_head h b e s t le same = record {
  next_free = ground (arith, same.next_free);
  prev_free = ground (arith, same.prev_free);
  no_dev = ground (arith, same.dev);
  no_next = ground (arith, same.next);
  no_prev = ground (arith, same.prev);
  unused = ground (arith, same.count);
  clean = ground (arith, same.dirt);
  unlocked = ground (arith, same.lock);
  data_behind = ground (arith, same.block);
}

same_below : (h b x : ℕ) (s t : Cache) → x < h → SameAt (init_head h b s) t x → SameAt s t x
unfolding init_head
same_below h b x s t lt same = record {
  next_free = ground (arith, same.next_free);
  prev_free = ground (arith, same.prev_free);
  dev = ground (arith, same.dev);
  next = ground (arith, same.next);
  prev = ground (arith, same.prev);
  count = ground (arith, same.count);
  dirt = ground (arith, same.dirt);
  lock = ground (arith, same.lock);
  block = ground (arith, same.block);
}

-- What the loop makes, from the head `h` and the bound `b` on.
pub record Made (s : Cache) (h b e n : ℕ) (t : Cache) : Type 0 where
  pub finish : e ≡ h + head_size * n
  pub fits : e ≤ b
  pub all : All (IsInitial t e) (heads n h)
  pub below : (x : ℕ) → x < h → SameAt s t x
  pub table : t.hash_table ≡ s.hash_table
  pub some_head : h + head_size + 1024 ≤ b → 0 < n

same_self : (s : Cache) (x : ℕ) → SameAt s s x
same_self s x = record {
  next_free = refl;
  prev_free = refl;
  dev = refl;
  next = refl;
  prev = refl;
  count = refl;
  dirt = refl;
  lock = refl;
  block = refl;
}

init_head-table : (h b : ℕ) (s : Cache) → (init_head h b s).hash_table ≡ s.hash_table
unfolding init_head
init_head-table h b s = refl

step_down : (h b : ℕ) → 1024 ≤ h → h ≤ b → b < 2 ^ 32 → sub32 b 1024 ≡ b - 1024
step_down h b lo le hi = omega arith

abbrev next_block : ℕ → ℕ
next_block b' = if b' == 0x10_0000 then 0xa_0000 else b'

Made-step :
    {s : Cache} {h b e n : ℕ} {t : Cache}
    → 1024 ≤ b
    → Made (init_head h (b - 1024) s) (h + head_size) (next_block (b - 1024)) e n t
    → Made s h b e (n + 1) t
Made-step {s} {h} {b} {e} {n} {t} lo m = record {
  finish = omega (arith, m.finish);
  fits = ground (arith, m.fits);
  all =
      subst (λ k. All (IsInitial t e) (heads k h)) (one n)
        (first_head h (b - 1024) e s t (ground (arith, m.fits)) (m.below h (omega arith)), m.all);
  below = λ x lt. same_below h (b - 1024) x s t lt (m.below x (omega arith));
  table = m.table ∙ init_head-table h (b - 1024) s;
  some_head = λ le. omega arith;
}
  where
    one : (n : ℕ) → suc n ≡ n + 1
    one n = omega arith

-- The heads that fit under `b` end below 640 KB, where the loop goes on behind the video memory.
abbrev pub HasRoom : ℕ → ℕ → Type 0
HasRoom h b = (h + head_size * (b / 1024) ≤ 0xa_0000) ⊎ (b ≤ 0xa_0000)

room_step :
    (h b : ℕ)
    → 1024 ≤ h
    → HasRoom h b
    → h + head_size ≤ b - 1024
    → HasRoom (h + head_size) (next_block (b - 1024))
      × (h + head_size ≤ next_block (b - 1024))
      × (next_block (b - 1024) / 1024 + 1 ≤ b / 1024)
      × (next_block (b - 1024) ≤ b)
room_step h b lo (inl room) fits = ground arith
room_step h b lo (inr room) fits = ground arith

init_heads-step :
    (fuel h b b' e n : ℕ) (s t : Cache)
    → sub32 b 1024 ≡ b'
    → leb (h + head_size) b' ≡ true
    → init_heads fuel (h + head_size) (next_block b') (init_head h b' s) ≡ some (e, n, t)
    → init_heads (suc fuel) h b s ≡ some (e, n + 1, t)
unfolding init_heads
init_heads-step fuel h b b' e n s t down on eq = rw (down, on, eq, init_heads) refl

-- The loop ends with enough fuel.
pub init_heads-Made :
    (fuel h b : ℕ) (s : Cache)
    → 1024 ≤ h
    → h ≤ b
    → b < 2 ^ 32
    → HasRoom h b
    → b / 1024 < fuel
    → (e : HeadPtr) × (n : ℕ) × (t : Cache) × (init_heads fuel h b s ≡ some (e, n, t))
      × Made s h b e n t
unfolding init_heads
init_heads-Made zero h b s lo le hi room enough = absurd (omega arith)
init_heads-Made (suc fuel) h b s lo le hi room enough =
    let down = step_down h b lo le hi in
    elim (Bool-cases (leb (h + head_size) (b - 1024))) [
      | inl on ↦
          let (room', le', few, lower) = room_step h b lo room (ground arith) in
          let (e, n, t, eq, m) =
            init_heads-Made fuel (h + head_size) (next_block (b - 1024)) (init_head h (b - 1024) s)
              (omega arith) le' (omega (arith, lower)) room' (omega (arith, few)) in
          (
            e,
            n + 1,
            t,
            init_heads-step fuel h b (b - 1024) e n s t down on eq,
            Made-step (omega arith) m,
          )
      | inr stop ↦ (
        h,
        0,
        s,
        rw (down, stop) refl,
        record {
          finish = omega arith;
          fits = le;
          all = tt;
          below = λ x lt. same_self s x;
          table = refl;
          some_head = λ room. ground arith;
        },
      )
    ]
