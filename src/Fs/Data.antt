-- ===== src/Fs/Data.antt =====
-- os/fs/fs_data.c: data blocks, handed out from a bitmap on the disk. The superblock, the bitmap and
-- the drive are passed on; a buffer is a function from the index to the 64-bit word.
pub mod Alloc
mod Tests
use hrishikos.Base.{ℕ, ◌+◌, ◌^◌, Bool, true, false, ◌==◌, if◌then◌else◌, add64, u8}
use hrishikos.Clib.Bitmap
use hrishikos.Clib.Bitmap.{Drive, BitmapDisk, find_free_bit, failure}
use hrishikos.Fs.Superblock.{Superblock, block_to_sector}

module _ {S : Type 0} (drive : Drive S) (superblock : Superblock) where
  pub init : BitmapDisk → S → (fresh : ℕ → ℕ) → BitmapDisk × S
  init b s fresh =
      let start = block_to_sector superblock superblock.data_bitmap_start in
      let (c, s') =
        Bitmap.init drive b s start superblock.block_sector_count
          superblock.data_blocks_block_count in
      Bitmap.load drive c s' fresh true start superblock.block_sector_count
        superblock.data_blocks_block_count

  pub load : BitmapDisk → S → (fresh : ℕ → ℕ) → (initialized : Bool) → BitmapDisk × S
  load b s fresh initialized =
      let (c, s') = Bitmap.flush drive b s in
      Bitmap.load drive c s' fresh initialized
        (block_to_sector superblock superblock.data_bitmap_start) superblock.block_sector_count
        superblock.data_blocks_block_count

  -- The sector count of a transfer is a `uint8_t`.
  pub read_block : S → (block : ℕ) → (ℕ → ℕ) → ℕ → ℕ
  read_block s block buffer =
      drive.read s (block_to_sector superblock (add64 superblock.data_blocks_start block)) buffer
        (u8 superblock.block_sector_count)

  pub write_block : S → (block : ℕ) → (ℕ → ℕ) → S
  write_block s block buffer =
      drive.write s (block_to_sector superblock (add64 superblock.data_blocks_start block)) buffer
        superblock.bytes_per_block

  pub write_free_block : BitmapDisk → S → (ℕ → ℕ) → ℕ × BitmapDisk × S
  write_free_block b s buffer =
      let (block, c, s') = find_free_bit drive b s in
      if block == failure then (failure, c, s') else (block, c, write_block s' block buffer)

module _ {S : Type 0} (drive : Drive S) where
  pub alloc_data_block : BitmapDisk → S → ℕ × BitmapDisk × S
  alloc_data_block b s =
      let (block, c, s') = find_free_bit drive b s in
      if block == failure
      then (failure, c, s')
      else let (d, t) = Bitmap.set drive c s' block in (block, d, t)

  pub free_data_block : BitmapDisk → S → (index : ℕ) → BitmapDisk × S
  free_data_block b s index = Bitmap.unset drive b s index
