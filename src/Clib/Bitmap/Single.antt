-- ===== src/Clib/Bitmap/Single.antt =====
-- os/lib/bitmap.c: a bitmap of one block, as the file system's two are at its fixed size.
use hrishikos.Base.{
  ℕ, zero, suc, ◌-◌, ◌*◌, ◌/◌, ◌%◌, ◌^◌, ◌≤◌, ◌<◌, ◌≡◌, refl, arith, ap, ◌∙◌, Bool, true, false,
  bit_and, bit_or, ◌==◌, leb, if◌then◌else◌, add64, sub64, update, inl, inr, Bool-cases,
}
use hrishikos.Base.Bits.{
  bit, bit-le_one, bit-bit_and, bit-bit_or, bit-pow, bit-complement, bit_and-pow, two_pow_pos,
  two_pow-lt,
}
use native.Mathlib.Nat.{mod-eq_of_lt, div-eq_of_lt}
use hrishikos.Clib.Bitmap.{
  Drive, BitmapDisk, bit_to_block, word_of, holds, checked_load_block, set, unset, test,
}

-- The cached block is the whole bitmap.
pub record IsSingle (b : BitmapDisk) : Type 0 where
  pub first : b.block_index ≡ 0
  pub fits : b.total_bits ≤ b.block_size * 8

-- The mark of a bit: 1 for a used one.
abbrev pub mark : BitmapDisk → ℕ → ℕ
mark b i = bit (b.block (i / 64)) (i % 64)

word_of_lem : (b : BitmapDisk) (i : ℕ) → IsSingle b → i < b.total_bits → word_of b i ≡ i / 64
word_of_lem b i single inside =
    ap (λ k. k / 64) (mod-eq_of_lt {n = i} {m = b.block_size * 8} (omega (arith, single.fits)))

digit_test : (d m : ℕ) → d ≤ 1 → 0 < m → (if d * m == 0 then false else true) ≡ (d == 1)
digit_test zero m h pos = ground arith
digit_test (suc zero) m h pos = ground arith
digit_test (suc (suc d)) m h pos = absurd (omega arith)

holds_lem : (b : BitmapDisk) (i : ℕ) → IsSingle b → i < b.total_bits → holds b i ≡ (mark b i == 1)
unfolding holds
holds_lem b i single inside =
    let w = b.block (i / 64) in
    rw (word_of_lem b i single inside, bit_and-pow w (i % 64))
      (digit_test (bit w (i % 64)) (2 ^ (i % 64)) (bit-le_one w (i % 64)) (two_pow_pos (i % 64)))

mark_or :
    (m : ℕ → ℕ) (i c : ℕ)
    → bit (update m (i / 64) (bit_or (m (i / 64)) (2 ^ (i % 64))) (c / 64)) (c % 64)
      ≡ (if i == c then 1 else bit (m (c / 64)) (c % 64))
mark_or m i c = ground (
  arith,
  bit-bit_or (m (i / 64)) (2 ^ (i % 64)) (c % 64),
  bit-pow (i % 64) (c % 64),
  bit-le_one (m (i / 64)) (c % 64),
)

mask_lt : (i : ℕ) → 2 ^ (i % 64) < 2 ^ 64
mask_lt i = two_pow-lt (i % 64) 64 (omega arith)

mark_and :
    (m : ℕ → ℕ) (i c : ℕ)
    → bit (update m (i / 64) (bit_and (m (i / 64)) (2 ^ 64 - 1 - 2 ^ (i % 64))) (c / 64)) (c % 64)
      ≡ (if i == c then 0 else bit (m (c / 64)) (c % 64))
mark_and m i c = ground (
  arith,
  bit-bit_and (m (i / 64)) (2 ^ 64 - 1 - 2 ^ (i % 64)) (c % 64),
  bit-complement 64 (2 ^ (i % 64)) (c % 64) (mask_lt i),
  bit-pow (i % 64) (c % 64),
  bit-le_one (m (i / 64)) (c % 64),
)

-- Bit `i` has the mark `d`, every other bit keeps its own, and the count follows the mark.
pub record IsMarked (b : BitmapDisk) (i d count : ℕ) (c : BitmapDisk) : Type 0 where
  pub marks : (k : ℕ) → mark c k ≡ (if i == k then d else mark b k)
  pub used : c.used_bits ≡ count
  pub single : IsSingle c
  pub same_total : c.total_bits ≡ b.total_bits

module _ {S : Type 0} (drive : Drive S) where
  checked_load_block_lem :
      (b : BitmapDisk) (s : S) (i : ℕ)
      → IsSingle b
      → i < b.total_bits
      → checked_load_block drive b s i ≡ (b, s)
  unfolding checked_load_block bit_to_block
  checked_load_block_lem b s i single inside =
      rw (single.first, div-eq_of_lt {n = i} {m = b.block_size * 8} (omega (arith, single.fits)))

  -- On a bitmap of one block, `bitmap_disk_set` of a bit within it marks this bit as used and no
  -- other, raises the count if the bit was free and else keeps it, and leaves the drive alone.
  pub set-IsMarked :
      (b : BitmapDisk) (s : S) (i : ℕ)
      → IsSingle b
      → i < b.total_bits
      → IsMarked b i 1
          (if mark b i == 1 then b.used_bits else add64 b.used_bits 1)
          (set drive b s i).0
        × ((set drive b s i).1 ≡ s)
  unfolding set
  set-IsMarked b s i single inside =
      let past : leb b.total_bits i ≡ false = ground arith in
      elim (Bool-cases (mark b i == 1)) [
        | inl used ↦
            rw (past, holds_lem b i single inside, used)
              (
                record {
                  marks = λ k. ground (arith, used);
                  used = refl;
                  single = single;
                  same_total = refl;
                },
                refl,
              )
        | inr is_free ↦
            rw
              (
                past,
                holds_lem b i single inside,
                is_free,
                checked_load_block_lem b s i single inside,
                word_of_lem b i single inside,
              )
              (
                record {
                  marks = λ k. mark_or b.block i k;
                  used = refl;
                  single = record { first = single.first; fits = single.fits };
                  same_total = refl;
                },
                refl,
              )
      ]

  -- On a bitmap of one block, `bitmap_disk_unset` of a bit within it marks this bit as free and no
  -- other, lowers the count if the bit was used and else keeps it, and leaves the drive alone.
  pub unset-IsMarked :
      (b : BitmapDisk) (s : S) (i : ℕ)
      → IsSingle b
      → i < b.total_bits
      → IsMarked b i 0
          (if mark b i == 1 then sub64 b.used_bits 1 else b.used_bits)
          (unset drive b s i).0
        × ((unset drive b s i).1 ≡ s)
  unfolding unset
  unset-IsMarked b s i single inside =
      let past : leb b.total_bits i ≡ false = ground arith in
      elim (Bool-cases (mark b i == 1)) [
        | inl used ↦
            rw
              (
                past,
                holds_lem b i single inside,
                used,
                checked_load_block_lem b s i single inside,
                word_of_lem b i single inside,
              )
              (
                record {
                  marks = λ k. mark_and b.block i k;
                  used = refl;
                  single = record { first = single.first; fits = single.fits };
                  same_total = refl;
                },
                refl,
              )
        | inr is_free ↦
            rw (past, holds_lem b i single inside, is_free)
              (
                record {
                  marks = λ k. ground (arith, is_free, bit-le_one (b.block (i / 64)) (i % 64));
                  used = refl;
                  single = single;
                  same_total = refl;
                },
                refl,
              )
      ]

  pub test_lem :
      (b : BitmapDisk) (s : S) (i : ℕ)
      → IsSingle b
      → i < b.total_bits
      → test drive b s i ≡ (if mark b i == 1 then false else true, b, s)
  unfolding test
  test_lem b s i single inside =
      let past : leb b.total_bits i ≡ false = ground arith in
      rw (past, checked_load_block_lem b s i single inside, holds_lem b i single inside)

  -- On a bitmap of one block, whose bits `i` and `k` lie within it, `bitmap_disk_test` says after
  -- `bitmap_disk_set` of `i` that `i` is used, after `bitmap_disk_unset` of `i` that it is free, and
  -- of every other `k` what it said before.
  pub test-set-unset_single :
      (b : BitmapDisk) (s : S) (i k : ℕ)
      → IsSingle b
      → i < b.total_bits
      → k < b.total_bits
      → ((test drive (set drive b s i).0 s k).0 ≡ (if i == k then false else (test drive b s k).0))
        × ((test drive (unset drive b s i).0 s k).0
            ≡ (if i == k then true else (test drive b s k).0))
  test-set-unset_single b s i k single hi hk =
      let (is, _) = set-IsMarked b s i single hi in
      let (un, _) = unset-IsMarked b s i single hi in
      (
        after (set drive b s i).0 1 is.single (ground (arith, is.same_total)) (is.marks k)
            ∙ ground arith,
        after (unset drive b s i).0 0 un.single (ground (arith, un.same_total)) (un.marks k)
            ∙ ground arith,
      )
    where
      before : (test drive b s k).0 ≡ (if mark b k == 1 then false else true)
      before = ap (λ (t : Bool × BitmapDisk × S). t.0) (test_lem b s k single hk)

      after :
          (c : BitmapDisk) (d : ℕ)
          → IsSingle c
          → k < c.total_bits
          → mark c k ≡ (if i == k then d else mark b k)
          → (test drive c s k).0
            ≡ (if i == k then (if d == 1 then false else true) else (test drive b s k).0)
      after c d one inside same =
          ap (λ (t : Bool × BitmapDisk × S). t.0) (test_lem c s k one inside)
          ∙ ground (arith, same, before)

-- Beyond the last bit nothing changes.
pub unset_out :
    {S : Type 0} (drive : Drive S) (b : BitmapDisk) (s : S) (i : ℕ)
    → b.total_bits ≤ i
    → unset drive b s i ≡ (b, s)
unfolding unset
unset_out drive b s i out =
    let over : leb b.total_bits i ≡ true = ground (arith, out) in rw over refl
