-- ===== src/Fs/Inode/Blocks/Grow.antt =====
-- os/fs/fs_inode.c: `fs_inode_alloc_blocks` of a block, and `fs_inode_get_block` of it.
use hrishikos.Base.{
  ℕ, ◌+◌, ◌^◌, ◌≤◌, ◌<◌, ◌≡◌, ◌⊎◌, inl, inr, refl, arith, ap, ◌∙◌, true, false, some, ◌==◌, add64,
}
use hrishikos.Clib.Bitmap.{Drive, BitmapDisk, failure}
use hrishikos.Clib.Bitmap.Find.{AllMarked}
use hrishikos.Fs.Superblock.{Superblock}
use hrishikos.Fs.Data.{alloc_data_block, free_data_block}
use hrishikos.Fs.Data.Alloc.{HasRoom, IsTaken, alloc_data_block_lem}
use hrishikos.Fs.Inode.{CacheEntry, State, set_entry}
use hrishikos.Fs.Inode.Blocks.{get_block, set_block, alloc_blocks}
use hrishikos.Fs.Inode.Cache.{set_entry_self}
use hrishikos.Fs.Inode.Blocks.Direct.{
  with_block, with_count, get_block_direct, set_block_direct, alloc_step, alloc_end, alloc_fail,
  alloc_run, alloc_failed,
}

-- The file has a new last block `r`, which was the first free one, and the blocks before it stay.
pub record HasGrown {S : Type 0} (s : State S) (slot r : ℕ) (t : State S) : Type 0 where
  pub count : (t.cache slot).inode.block_count ≡ (s.cache slot).inode.block_count + 1
  pub block : (t.cache slot).inode.blocks (s.cache slot).inode.block_count ≡ r
  pub before :
      (i : ℕ)
      → i < (s.cache slot).inode.block_count
      → (t.cache slot).inode.blocks i ≡ (s.cache slot).inode.blocks i
  pub taken : IsTaken s.data_bitmap r t.data_bitmap
  pub same_disk : t.disk ≡ s.disk
  pub dirty : (t.cache slot).dirty ≡ true

module _ {S : Type 0} (drive : Drive S) (superblock : Superblock) (garbage : ℕ → ℕ) where
  -- The states after the allocation, after the entry of the block and at the end.
  abbrev grown : State S → (slot r : ℕ) → BitmapDisk → S → State S
  grown s slot r bitmap disk =
      let n = (s.cache slot).inode.block_count in
      let t =
        set_entry (record s { data_bitmap = bitmap; disk = disk }) slot
          (with_block (s.cache slot) n r) in
      set_entry t slot (with_count (t.cache slot) (add64 (t.cache slot).inode.block_count 1))

  grown-HasGrown :
      (s : State S) (slot r : ℕ) (bitmap : BitmapDisk) (disk : S)
      → (s.cache slot).inode.block_count < 8
      → IsTaken s.data_bitmap r bitmap
      → disk ≡ s.disk
      → HasGrown s slot r (grown s slot r bitmap disk)
  grown-HasGrown s slot r bitmap disk direct taken same =
      let n = (s.cache slot).inode.block_count in
      let e = with_block (s.cache slot) n r in
      let t = set_entry (record s { data_bitmap = bitmap; disk = disk }) slot e in
      let first = set_entry_self (record s { data_bitmap = bitmap; disk = disk }) slot e in
      let last =
        set_entry_self t slot
          (with_count (t.cache slot) (add64 (t.cache slot).inode.block_count 1)) in
      let count = ap (λ (f : CacheEntry). f.inode.block_count) first in
      let blocks =
        ap (λ (f : CacheEntry). f.inode.blocks) last
        ∙ ap (λ (f : CacheEntry). f.inode.blocks) first in
      record {
        count = omega (arith, ap (λ (f : CacheEntry). f.inode.block_count) last, count, direct);
        block = ap (λ (b : ℕ → ℕ). b n) blocks ∙ ground arith;
        before = λ i h. ap (λ (b : ℕ → ℕ). b i) blocks ∙ ground (arith, h);
        taken = taken;
        same_disk = same;
        dirty = ap (λ (f : CacheEntry). f.dirty) last;
      }

  -- `fs_inode_alloc_blocks` of one block, for a file of less than eight blocks in an entry of the
  -- cache, where the data bitmap is a single block, the loaded one, of whole 64-bit words, of less than
  -- 2^60 bytes, counts less bits as used than it has, and has less than 2^63 bits, not more than its
  -- block holds and not more than the superblock has data blocks: it succeeds and the first free block
  -- of that bitmap, and no other one, is taken and is what `fs_inode_get_block` now finds behind the old
  -- blocks, which stay, or it reports that it did not, every block of the bitmap is in use, and the
  -- cache is what it was.
  pub get_block-alloc_blocks :
      (s : State S) (slot : ℕ)
      → slot < 128
      → (s.cache slot).inode.block_count < 8
      → HasRoom s.data_bitmap
      → s.data_bitmap.total_bits ≤ superblock.data_blocks_block_count
      → s.data_bitmap.total_bits < 2 ^ 63
      → ((r : ℕ) × (t : State S) × (u : State S) × (alloc_blocks drive superblock garbage s slot 1
            ≡ some (true, t))
          × (get_block drive superblock garbage t slot (s.cache slot).inode.block_count
              ≡ some (r, u))
          × HasGrown s slot r t)
        ⊎ ((t : State S) × (alloc_blocks drive superblock garbage s slot 1 ≡ some (false, t))
            × AllMarked s.data_bitmap 0 s.data_bitmap.total_bits
            × (t.cache ≡ s.cache))
  get_block-alloc_blocks s slot inside direct room small total =
      let n = (s.cache slot).inode.block_count in
      let got = alloc_data_block drive s.data_bitmap s.disk in
      let freed = free_data_block drive got.1 got.2 got.0 in
      elim (alloc_data_block_lem drive s.data_bitmap s.disk room) [
        | inr (missed, all) ↦
            let t : State S = record s { data_bitmap = freed.0; disk = freed.1 } in
            let bad : (got.0 == failure) ≡ true = ground (arith, missed) in
            inr (
              t,
              alloc_failed drive superblock garbage s t slot inside
                  (alloc_fail drive superblock garbage 0 s slot n 0 bad),
              all,
              refl,
            )
        | inl (taken, same) ↦
            let below : got.0 < s.data_bitmap.total_bits = taken.first.1 in
            let ok : (got.0 == failure) ≡ false = ground (arith, below, total) in
            let allocated : State S = record s { data_bitmap = got.1; disk = got.2 } in
            let t = set_entry allocated slot (with_block (s.cache slot) n got.0) in
            let next : add64 n 0 ≡ n = omega (arith, direct) in
            let set =
              ap (λ i. set_block drive superblock garbage allocated slot i got.0) next
              ∙ set_block_direct drive superblock garbage allocated slot n got.0 inside direct
                  (omega (arith, below, small)) in
            let end = grown s slot got.0 got.1 got.2 in
            let has = grown-HasGrown s slot got.0 got.1 got.2 direct taken same in
            inl (
              got.0,
              end,
              set_entry end slot (record (end.cache slot) { reference = 1 }),
              alloc_run drive superblock garbage s t slot inside (
                  alloc_step drive superblock garbage 0 s t slot n 0 ok set
                  ∙ alloc_end drive superblock garbage t slot n 1),
              get_block_direct drive superblock garbage end slot n inside direct
                    (omega (arith, has.count))
                  ∙ ap
                      (λ b.
                        some (b, set_entry end slot (record (end.cache slot) { reference = 1 })))
                      has.block,
              has,
            )
      ]
