-- ===== src/Fork/Counts.antt =====
-- The counts of files and inodes that `copy_process` of kernel/fork.c raises.
use mockos.Segment.{get_base}
use mockos.Prelude.{
  ◌-◌, ◌<◌, zero, suc, ◌+◌, ◌%◌, ◌^◌, ◌≡◌, ◌≢◌, ◌∙◌, arith, ◌==◌, if◌then◌else◌, ℕ,
}
use mockos.Fork.Task.{Task}
use mockos.Fork.Copy.{add_files, add_use, round_page}

-- One use more of `f`, if the pointer is `f`.
add_use-count :
    (q : ℕ) (count : ℕ → ℕ) (f : ℕ)
    → f ≢ 0
    → count f < 2 ^ 16
    → (add_use q count f < 2 ^ 16)
      × (add_use q count f ≡ (count f + (if q == f then 1 else 0)) % 2 ^ 16)
add_use-count q count f exists small = (ground arith, ground arith)

-- How many of the `n` pointers from `i` on are `f`.
abbrev pub uses : (f : ℕ) (filp : ℕ → ℕ) (n i : ℕ) → ℕ
uses f filp zero i = 0
uses f filp (suc n) i = (if filp i == f then 1 else 0) + uses f filp n (i + 1)

pub add_files-uses :
    (n i : ℕ) (filp count : ℕ → ℕ) (f : ℕ)
    → f ≢ 0
    → count f < 2 ^ 16
    → add_files n i filp count f ≡ (count f + uses f filp n i) % 2 ^ 16
unfolding add_files
add_files-uses zero i filp count f exists small = omega arith
add_files-uses (suc n) i filp count f exists small =
    let (bound, one) = add_use-count (filp i) count f exists small in
    add_files-uses n (i + 1) filp (add_use (filp i) count) f exists bound ∙ omega (arith, one)

-- The uses of an inode by a task.
abbrev pub inode_uses : ℕ → Task → ℕ
inode_uses q t =
    (if t.pwd == q then 1 else 0)
    + (if t.root == q then 1 else 0)
    + (if t.executable == q then 1 else 0)
    + (if t.library == q then 1 else 0)

-- The page that holds the top of the child's user stack.
abbrev pub stack_page : ℕ → Task → ℕ
stack_page esp t = (round_page esp + get_base (t.ldt 2) + 2 ^ 32 - 4096) % 2 ^ 32

pub add_inodes-uses :
    (a b c d : ℕ) (count : ℕ → ℕ) (f : ℕ)
    → f ≢ 0
    → count f < 2 ^ 16
    → add_use a (add_use b (add_use c (add_use d count))) f
      ≡ (count f
          + ((if d == f then 1 else 0)
              + (if c == f then 1 else 0)
              + (if b == f then 1 else 0)
              + (if a == f then 1 else 0)))
        % 2 ^ 16
add_inodes-uses a b c d count f exists small =
    let (l₁, e₁) = add_use-count d count f exists small in
    let (l₂, e₂) = add_use-count c (add_use d count) f exists l₁ in
    let (l₃, e₃) = add_use-count b (add_use c (add_use d count)) f exists l₂ in
    let (l₄, e₄) = add_use-count a (add_use b (add_use c (add_use d count))) f exists l₃ in
    omega (arith, e₁, e₂, e₃, e₄)
