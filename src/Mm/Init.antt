-- ===== src/Mm/Init.antt =====
-- `mem_init` of mm/memory.c.
use mockos.Prelude.{
  ℕ, ◌+◌, ◌-◌, ◌*◌, ◌/◌, ◌^◌, ◌<◌, ◌≤◌, ◌≡◌, inl, inr, refl, arith, ◌&&◌, leb, ltb, if◌then◌else◌,
  Bool-cases, ◌==◌, ==→eq,
}
use mockos.Mm.State.{low_mem, used, paging_pages, map_nr, Mem, fill, fill_in, fill_out}
use mockos.Mm.FreePage.{get_free_page, get_free_page_cases}

-- The count of the second loop is `(end_mem - start_mem) >> 12`; below 0 it makes no round.
unfoldable pub mem_init : (start_mem end_mem : ℕ) → Mem → Mem
mem_init start_mem end_mem s = record s {
  high_memory = end_mem;
  mem_map =
      fill ((end_mem - start_mem) / 4096) (map_nr start_mem) 0 (fill paging_pages 0 used s.mem_map);
}

-- After `mem_init` from an address of LOW_MEM or more, each page of the map is free, with the
-- count 0, exactly when it lies in the main memory from `start_mem` to `end_mem`, and else USED.
-- HIGH_MEMORY is `end_mem`, and the memory itself is not touched.
pub mem_init_lem :
    (start_mem end_mem : ℕ) (s : Mem)
    → low_mem ≤ start_mem
    → (i : ℕ) → i < paging_pages
    → let t = mem_init start_mem end_mem s in
      (t.mem_map i ≡ (
        if leb (map_nr start_mem) i && ltb i (map_nr start_mem + (end_mem - start_mem) / 4096)
        then 0
        else used))
      × (t.high_memory ≡ end_mem)
      × (t.word ≡ s.word)
unfolding mem_init
mem_init_lem start_mem end_mem s low i lt =
    let n = (end_mem - start_mem) / 4096 in
    let m = fill paging_pages 0 used s.mem_map in
    (
      ground (
        arith,
        fill_in n (map_nr start_mem) 0 m i,
        fill_out n (map_nr start_mem) 0 m i,
        fill_in paging_pages 0 used s.mem_map i,
      ),
      refl,
      refl,
    )

last_page_free : (s : Mem) → (mem_init (4 * 2 ^ 20) (16 * 2 ^ 20) s).mem_map 3839 ≡ 0
last_page_free s = (mem_init_lem (4 * 2 ^ 20) (16 * 2 ^ 20) s (omega arith) 3839 (omega arith)).0

-- `main` calls `mem_init(4 << 20, 16 << 20)`: the first page then handed out is the last of the
-- 16 MB.
pub boot-get_free_page :
    (s : Mem) → (get_free_page (mem_init (4 * 2 ^ 20) (16 * 2 ^ 20) s)).0 ≡ 0xff_f000
boot-get_free_page s = elim (get_free_page_cases (mem_init (4 * 2 ^ 20) (16 * 2 ^ 20) s)) [
  | inl (i, a) ↦ elim (Bool-cases (i == 3839)) [
    | inl e ↦ omega (arith, a.address, ==→eq i 3839 e)
    | inr e ↦ absurd (a.last 3839 (ground (arith, a.in_map)) (omega arith) (last_page_free s))
  ]
  | inr x ↦ absurd (x.none_free 3839 (omega arith) (last_page_free s))
]
