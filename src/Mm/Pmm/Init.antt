-- ===== src/Mm/Pmm/Init.antt =====
-- os/mm/pmm.c: the marks that `pmm_init` leaves on every block.
use hrishikos.Base.{
  ℕ, zero, suc, ◌+◌, ◌/◌, ◌%◌, ◌^◌, ◌≤◌, ◌<◌, ◌≡◌, refl, arith, ◌==◌, ltb, leb, if◌then◌else◌, Bool,
  false, ◌&&◌, ◌||◌, List, [], ◌∷◌, u32, add32, sub32,
}
use hrishikos.Mm.Pmm.{
  Pmm, E820Entry, memory_map_set, memory_map_unset, memory_map_test, init_region_loop,
  deinit_region_loop,
}
use hrishikos.Mm.Pmm.Bitmap.{test-set, test-unset}

-- Block `b` is one of the whole pages of a usable entry, counted from the page its base lies in.
abbrev pub in_usable : E820Entry → ℕ → Bool
in_usable e b = (e.kind == 1) && (leb (e.base / 4096) b && ltb b (e.base / 4096 + e.len / 4096))

unfoldable pub covered : List E820Entry → ℕ → Bool
covered [] b = false
covered (e ∷ es) b = in_usable e b || covered es b

-- Usable entries are shorter than 4 GiB, which `pmm_init_region` can take, and end within the 2^44
-- bytes that have a block number of 32 bits.
pub data AreShort : List E820Entry → Type 0 where
  none_left : AreShort []
  short :
      {e : E820Entry} {es : List E820Entry}
      → (e.kind ≡ 1 → (e.len < 2 ^ 32) × (e.base + e.len ≤ 2 ^ 44))
      → AreShort es
      → AreShort (e ∷ es)

-- What the arithmetic of the code, which wraps, makes of an entry.
abbrev in_region : E820Entry → ℕ → Bool
in_region e b = ltb (sub32 b (u32 (e.base / 4096))) (u32 e.len / 4096)

test_same_map :
    (p q : Pmm) (b : ℕ) → p.memory_map ≡ q.memory_map → memory_map_test p b ≡ memory_map_test q b
unfolding memory_map_test
test_same_map p q b e = rw e

pub test-init_region_loop :
    (p : Pmm) (blocks align b : ℕ)
    → b < 2 ^ 32
    → align < 2 ^ 32
    → blocks ≤ 2 ^ 32
    → memory_map_test (init_region_loop p blocks align) b
      ≡ (if ltb (sub32 b align) blocks then 0 else memory_map_test p b)
unfolding init_region_loop
test-init_region_loop p zero align b hb ha hn = ground arith
test-init_region_loop p (suc blocks) align b hb ha hn =
    let q = memory_map_unset p align in
    let q' = record q { used_blocks = sub32 q.used_blocks 1 } in
    ground (
      arith,
      test-init_region_loop q' blocks (add32 align 1) b,
      test_same_map q' q b refl,
      test-unset p align b,
    )

pub test-deinit_region_loop :
    (p : Pmm) (blocks align b : ℕ)
    → b < 2 ^ 32
    → align < 2 ^ 32
    → blocks ≤ 2 ^ 32
    → memory_map_test (deinit_region_loop p blocks align) b
      ≡ (if ltb (sub32 b align) blocks then 1 else memory_map_test p b)
unfolding deinit_region_loop
test-deinit_region_loop p zero align b hb ha hn = ground arith
test-deinit_region_loop p (suc blocks) align b hb ha hn =
    let q = memory_map_set p align in
    let q' = record q { used_blocks = add32 q.used_blocks 1 } in
    ground (
      arith,
      test-deinit_region_loop q' blocks (add32 align 1) b,
      test_same_map q' q b refl,
      test-set p align b,
    )

-- The mark that a byte 0x0f leaves: the lower half of the eight blocks is used.
abbrev pub half_mark : ℕ → ℕ
half_mark j = if ltb (j % 8) 4 then 1 else 0
