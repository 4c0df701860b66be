-- ===== src/Fs/Data/Alloc.antt =====
-- os/fs/fs_data.c: `fs_data_alloc_block` and `fs_data_free_block`.
use hrishikos.Base.{
  ℕ, ◌+◌, ◌-◌, ◌%◌, ◌^◌, ◌≤◌, ◌<◌, ◌≡◌, ◌≢◌, ◌⊎◌, arith, subst, ◌==◌, ==_ne, if◌then◌else◌, add64,
  inl, inr, some,
}
use hrishikos.Clib.Bitmap.{Drive, BitmapDisk, find_free_bit, failure, set}
use hrishikos.Clib.Bitmap.Single.{IsSingle, mark, IsMarked, set-IsMarked, unset-IsMarked, unset_out}
use hrishikos.Clib.Bitmap.Find.{AllMarked, FirstUnmarked, find_free_bit-FirstUnmarked}
use hrishikos.Fs.Data.{alloc_data_block, free_data_block}

-- A bitmap of one block of whole words, with a bit that is counted as free.
pub record HasRoom (b : BitmapDisk) : Type 0 where
  pub single : IsSingle b
  pub one_block : b.block_count ≡ 1
  pub whole_words : b.block_size % 8 ≡ 0
  pub small : b.block_size < 2 ^ 60
  pub room : b.used_bits < b.total_bits

-- What an allocation leaves: block `r` was the first free one, and now it is used and counted.
pub record IsTaken (b : BitmapDisk) (r : ℕ) (c : BitmapDisk) : Type 0 where
  pub first : FirstUnmarked b 0 b.total_bits (some r)
  pub taken : IsMarked b r 1 (b.used_bits + 1) c

module _ {S : Type 0} (drive : Drive S) where
  alloc_found :
      (b : BitmapDisk) (s : S) (r : ℕ)
      → r < 2 ^ 63
      → find_free_bit drive b s ≡ (r, b, s)
      → alloc_data_block drive b s ≡ (r, (set drive b s r).0, (set drive b s r).1)
  unfolding alloc_data_block
  alloc_found b s r small run = rw (run, ==_ne r (2 ^ 64 - 1) (omega arith))

  alloc_missed :
      (b : BitmapDisk) (s : S)
      → (find_free_bit drive b s).0 ≡ failure
      → (alloc_data_block drive b s).0 ≡ failure
  unfolding alloc_data_block
  alloc_missed b s run = rw run

  -- On a bitmap of one block of whole words, of less than 2 ^ 60 bytes, with less bits counted as
  -- used than it has,
  -- `fs_data_alloc_block` either returns the first free block and marks it as
  -- used, no other block changing and the drive untouched, or it returns the failure and every block
  -- of the bitmap is used.
  pub alloc_data_block_lem :
      (b : BitmapDisk) (s : S)
      → HasRoom b
      → let (r, c, t) = alloc_data_block drive b s in
        (IsTaken b r c × (t ≡ s)) ⊎ ((r ≡ failure) × AllMarked b 0 b.total_bits)
  alloc_data_block_lem b s h =
      elim (find_free_bit-FirstUnmarked drive b s h.single h.one_block h.whole_words h.small
        h.room) [
          | inl (r, run, (from, below, inside, is_free, used)) ↦
              let fits = h.single.fits in
              let size = h.small in
              let (marked, same) = set-IsMarked drive b s r h.single inside in
              let count : (if mark b r == 1 then b.used_bits else add64 b.used_bits 1)
                  ≡ b.used_bits + 1 =
                ground (arith, is_free, h.room, fits, size) in
              inl (
                rw (alloc_found b s r (omega (arith, inside, fits, size)) run) (
                  record {
                    first = (from, below, inside, is_free, used);
                    taken = subst (λ n. IsMarked b r 1 n (set drive b s r).0) count marked;
                  },
                  same,
                ))
          | inr (missed, used) ↦ inr (alloc_missed b s missed, used)
        ]

  -- On a bitmap of one block of whole words, of less than 2 ^ 60 bytes, with less bits counted as
  -- used than it has,
  -- `fs_data_free_block` of the block that a successful `fs_data_alloc_block` has just returned
  -- gives back the mark of every block and the count.
  pub free-alloc_data_block :
      (b : BitmapDisk) (s : S) (k : ℕ)
      → HasRoom b
      → (alloc_data_block drive b s).0 ≢ failure
      → let (r, c, t) = alloc_data_block drive b s in
        let (d, u) = free_data_block drive c t r in
        (mark d k ≡ mark b k) × (d.used_bits ≡ b.used_bits)
  unfolding free_data_block
  free-alloc_data_block b s k h ne = elim (alloc_data_block_lem b s h) [
    | inr (missed, _) ↦ absurd (ne missed)
    | inl (got, same) ↦
        let r = (alloc_data_block drive b s).0 in
        let c = (alloc_data_block drive b s).1 in
        let t = (alloc_data_block drive b s).2 in
        let (from, below, inside, is_free, used) = got.first in
        let taken = got.taken in
        let (freed, _) =
          unset-IsMarked drive c t r taken.single (omega (arith, inside, taken.same_total)) in
        let room = h.room in
        let fits = h.single.fits in
        let size = h.small in
        (
          ground (arith, freed.marks k, taken.marks k, is_free),
          ground (arith, freed.used, taken.marks r, taken.used, room, fits, size),
        )
  ]

  pub free_data_block_out :
      (b : BitmapDisk) (s : S) (index : ℕ)
      → b.total_bits ≤ index
      → free_data_block drive b s index ≡ (b, s)
  unfolding free_data_block
  free_data_block_out b s index out = unset_out drive b s index out
