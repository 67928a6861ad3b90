-- ===== src/Tests/Buffer.antt =====
-- fs/buffer.c with two heads, 100 and 136; the second holds the block 0 of the device 0x300.
use mockos.Buffer.Placed.{reuse-IsCache}
use mockos.Buffer.Init.{buffer_init, init_heads}
use mockos.Prelude.{
  Option, none, ℕ, ◌≡◌, refl, arith, ◌==◌, List, [], ◌∷◌, ◌++◌, if◌then◌else◌, inl, inr, Bool-cases,
  ==→eq, some,
}
use mockos.Buffer.{find_from, HeadPtr, Cache, hashfn, find_buffer, remove_from_hash}
use mockos.Buffer.Ring.{IsRing, Without}
use mockos.Buffer.Hash.{Lookup, find_buffer-Lookup}
use mockos.Buffer.Search.{pick, Choice, pick-Choice}
use mockos.Buffer.Hashed.{IsHashed, erase}
use mockos.Buffer.Rehash.{queued, loose, push, remove_from_hash-IsHashed}
use mockos.Buffer.Getblk.{reuse, got, repeats, getblk}
use mockos.Buffer.Reuse.{IsCache, Reused}
use mockos.Buffer.Answer.{NotCached, Ready, getblk-Reused, getblk-spins}

abbrev two_heads : (count dirt : ℕ) → Cache
two_heads count dirt = record {
  b_data = λ p. 0;
  b_blocknr = λ p. 0;
  b_dev = λ p. if p == 136 then 0x300 else 0;
  b_uptodate = λ p. 0;
  b_dirt = λ p. dirt;
  b_count = λ p. count;
  b_lock = λ p. 0;
  b_prev = λ p. 0;
  b_next = λ p. 0;
  b_prev_free = λ p. if p == 100 then 136 else 100;
  b_next_free = λ p. if p == 100 then 136 else 100;
  hash_table = λ i. if i == 154 then 136 else 0;
  free_list = 100;
}

abbrev queues : ℕ → List HeadPtr
queues i = if i == 154 then 136 ∷ [] else []

abbrev head_count : Option (ℕ × Cache) → ℕ
head_count none = 0
head_count (some (n, t)) = n

hashes : hashfn 0x300 0 ≡ 154
hashes = refl

finds : find_buffer 2 0x300 0 (two_heads 0 0) ≡ some 136
unfolding find_buffer find_from
finds = refl

picks : pick 2 100 0 (two_heads 0 0) ≡ some 100
unfolding pick
picks = refl

two_heads-IsHashed : (count dirt : ℕ) → IsHashed (two_heads count dirt) queues
two_heads-IsHashed count dirt = record {
  queue = λ i. elim (Bool-cases (i == 154)) [
    | inl e ↦ rw e (refl, omega arith, refl, refl)
    | inr e ↦ rw e refl
  ];
  in_place = λ i. elim (Bool-cases (i == 154)) [
    | inl e ↦ rw e ((omega (arith, ==→eq i 154 e), omega arith), tt)
    | inr e ↦ rw e tt
  ];
  distinct = λ i. elim (Bool-cases (i == 154)) [ inl e ↦ rw e (tt, tt) | inr e ↦ rw e tt ];
}

two_heads-IsRing : (count dirt : ℕ) → IsRing (two_heads count dirt) 100 (136 ∷ [])
two_heads-IsRing count dirt = record { head = refl; links = ((refl, refl), (refl, refl)) }

two_heads-IsCache : (count dirt : ℕ) → IsCache (two_heads count dirt) 100 (136 ∷ []) queues
two_heads-IsCache count dirt = record {
  ring = two_heads-IsRing count dirt;
  distinct = ((omega arith, tt), (tt, tt));
  no_null = (omega arith, (omega arith, tt));
  hashed = two_heads-IsHashed count dirt;
  placed = (loose refl refl refl, (queued (inl refl), tt));
}

block_5-NotCached :
    (count dirt : ℕ) → NotCached 1 0x301 5 (two_heads count dirt) (queues (hashfn 0x301 5))
block_5-NotCached count dirt = record { missing = tt; enough = omega arith }

getblk-Reused_example :
    (b : HeadPtr) × (t : Cache) × (getblk 1 2 0x301 5 (two_heads 0 0) ≡ got b t)
    × Ready (two_heads 0 0) (100 ∷ 136 ∷ []) b
    × Reused (two_heads 0 0) (100 ∷ 136 ∷ []) queues 0x301 5 b t
    × (find_buffer 1 0x301 5 t ≡ some b)
getblk-Reused_example =
    getblk-Reused 1 0x301 5 (two_heads 0 0) 100 136 100 [] queues (two_heads-IsCache 0 0)
      (omega arith) (omega arith) (block_5-NotCached 0 0)
      (record { listed = inl refl; unused = refl; good = refl })

getblk-spins_example : getblk 1 2 0x301 5 (two_heads 0 1) ≡ repeats (two_heads 0 1)
getblk-spins_example =
    getblk-spins 1 0x301 5 (two_heads 0 1) 100 136 (136 ∷ []) queues (two_heads-IsCache 0 1)
      (block_5-NotCached 0 1) (inr (inl refl)) refl
      ((λ u. (omega arith, refl)), ((λ u. (omega arith, refl)), tt))

find_buffer-Lookup_example :
    (b : HeadPtr) × (find_buffer 2 0x300 0 (two_heads 0 0) ≡ some b)
    × Lookup (two_heads 0 0) 0x300 0 (136 ∷ []) b
find_buffer-Lookup_example =
    find_buffer-Lookup 2 0x300 0 (two_heads 0 0) (136 ∷ []) (refl, omega arith, refl, refl)
      (omega arith)

pick-Choice_example :
    (b : HeadPtr) × (pick 2 100 0 (two_heads 0 0) ≡ some b)
    × Choice (two_heads 0 0) (100 ∷ 136 ∷ []) b
pick-Choice_example =
    pick-Choice (two_heads 0 0) 100 (136 ∷ []) (two_heads-IsRing 0 0)
      (omega arith, (omega arith, tt)) (omega arith, tt)

remove_from_hash-IsHashed_example :
    IsHashed (remove_from_hash 136 (two_heads 0 0)) (λ i. erase 136 (queues i))
remove_from_hash-IsHashed_example =
    remove_from_hash-IsHashed (two_heads 0 0) queues 136 (omega arith) (two_heads-IsHashed 0 0)
      (queued (inl refl))

-- a third head, in no list, with a block
abbrev third_head : Cache
third_head = record (two_heads 0 0) {
  b_dev = λ p. if p == 136 then 0x300 else if p == 172 then 0x301 else 0;
}

third_head-IsHashed : IsHashed third_head queues
third_head-IsHashed = record {
  queue = (two_heads-IsHashed 0 0).queue;
  in_place = λ i. elim (Bool-cases (i == 154)) [
    | inl e ↦ rw e ((omega (arith, ==→eq i 154 e), omega arith), tt)
    | inr e ↦ rw e tt
  ];
  distinct = (two_heads-IsHashed 0 0).distinct;
}

outside : (i : ℕ) → Without 172 (queues i)
outside i = elim (Bool-cases (i == 154)) [ inl e ↦ rw e (omega arith, tt) | inr e ↦ rw e tt ]

small_init : head_count (buffer_init 0x2_0000 0x2_1000 (two_heads 0 0)) ≡ 3
unfolding buffer_init init_heads
small_init = refl

reuse-IsCache_example :
    (t : Cache) × (g : HeadPtr) × (ws : List HeadPtr) × (reuse 0x301 5 136 (two_heads 0 0)
      ≡ got 136 t)
    × (erase 136 (100 ∷ 136 ∷ []) ≡ g ∷ ws)
    × IsCache t g (ws ++ 136 ∷ []) (push 136 (hashfn 0x301 5) (λ i. erase 136 (queues i)))
reuse-IsCache_example =
    reuse-IsCache (two_heads 0 0) 100 136 [] queues 136 0x301 5 (two_heads-IsCache 0 0)
      (inr (inl refl)) (omega arith) (omega arith)
