-- ===== src/Mm/Pmm/Bitmap.antt =====
-- os/mm/pmm.c: what the bit operations on the memory map do to every block.
use hrishikos.Base.{
  ℕ, zero, suc, ◌-◌, ◌*◌, ◌/◌, ◌%◌, ◌^◌, ◌≤◌, ◌<◌, ◌≡◌, arith, ◌==◌, if◌then◌else◌,
}
use hrishikos.Base.Bits.{
  bit, bit-le_one, bit-bit_and, bit-bit_or, bit-pow, bit-complement, bit_and-pow, bit_or-lt,
  bit_and-le, two_pow_pos, two_pow-lt,
}
use hrishikos.Mm.Pmm.{Pmm, memory_map_set, memory_map_unset, memory_map_test}

-- Every word of the map fits 32 bits.
abbrev pub IsWords : Pmm → Type 0
IsWords p = (i : ℕ) → p.memory_map i < 2 ^ 32

digit_test : (d m : ℕ) → d ≤ 1 → 0 < m → (if d * m == 0 then 0 else 1) ≡ d
digit_test zero m h pos = ground arith
digit_test (suc zero) m h pos = ground arith
digit_test (suc (suc d)) m h pos = absurd (omega arith)

-- The test reads one digit of one word.
pub test-bit : (p : Pmm) (b : ℕ) → memory_map_test p b ≡ bit (p.memory_map (b / 32)) (b % 32)
unfolding memory_map_test
test-bit p b =
    let w = p.memory_map (b / 32) in
    rw (bit_and-pow w (b % 32))
      (digit_test (bit w (b % 32)) (2 ^ (b % 32)) (bit-le_one w (b % 32)) (two_pow_pos (b % 32)))

pub test-le_one : (p : Pmm) (b : ℕ) → memory_map_test p b ≤ 1
test-le_one p b = rw (test-bit p b) (bit-le_one (p.memory_map (b / 32)) (b % 32))

mask_lt : (b : ℕ) → 2 ^ (b % 32) < 2 ^ 32
mask_lt b = two_pow-lt (b % 32) 32 (omega arith)

-- `pmm_memory_map_set` marks its block as used, and no other block changes.
pub test-set :
    (p : Pmm) (b c : ℕ)
    → memory_map_test (memory_map_set p b) c ≡ (if b == c then 1 else memory_map_test p c)
unfolding memory_map_set
test-set p b c = ground (
  arith,
  test-bit (memory_map_set p b) c,
  test-bit p c,
  bit-bit_or (p.memory_map (b / 32)) (2 ^ (b % 32)) (c % 32),
  bit-pow (b % 32) (c % 32),
  bit-le_one (p.memory_map (b / 32)) (c % 32),
)

-- `pmm_memory_map_unset` marks its block as free, and no other block changes.
pub test-unset :
    (p : Pmm) (b c : ℕ)
    → memory_map_test (memory_map_unset p b) c ≡ (if b == c then 0 else memory_map_test p c)
unfolding memory_map_unset
test-unset p b c = ground (
  arith,
  test-bit (memory_map_unset p b) c,
  test-bit p c,
  bit-bit_and (p.memory_map (b / 32)) (2 ^ 32 - 1 - 2 ^ (b % 32)) (c % 32),
  bit-complement 32 (2 ^ (b % 32)) (c % 32) (mask_lt b),
  bit-pow (b % 32) (c % 32),
  bit-le_one (p.memory_map (b / 32)) (c % 32),
)

pub set-IsWords : (p : Pmm) (b : ℕ) → IsWords p → IsWords (memory_map_set p b)
unfolding memory_map_set
set-IsWords p b h i =
    ground (arith, h i, bit_or-lt 32 (p.memory_map (b / 32)) (2 ^ (b % 32)), h (b / 32), mask_lt b)

pub unset-IsWords : (p : Pmm) (b : ℕ) → IsWords p → IsWords (memory_map_unset p b)
unfolding memory_map_unset
unset-IsWords p b h i =
    ground
      (arith, h i, h (b / 32), bit_and-le 32 (p.memory_map (b / 32)) (2 ^ 32 - 1 - 2 ^ (b % 32)))

-- Whatever stood at block `b`, after one of the two operations the test tells which, and the
-- blocks on either side keep their marks.
pub test-set-unset :
    (p : Pmm) (b c : ℕ)
    → (memory_map_test (memory_map_set p b) c ≡ (if b == c then 1 else memory_map_test p c))
      × (memory_map_test (memory_map_unset p b) c ≡ (if b == c then 0 else memory_map_test p c))
test-set-unset p b c = (test-set p b c, test-unset p b c)
