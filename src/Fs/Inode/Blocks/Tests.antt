-- ===== src/Fs/Inode/Blocks/Tests.antt =====
-- os/fs/fs_inode.c at concrete inputs: the blocks of a file.
use hrishikos.Base.{ℕ, ◌+◌, ◌≡◌, ◌⊎◌, refl, arith, true, false, some, update}
use hrishikos.Clib.Bitmap.{BitmapDisk}
use hrishikos.Clib.Bitmap.Find.{AllMarked}
use hrishikos.Fs.Data.Alloc.{HasRoom}
use hrishikos.Fs.Inode.{State}
use hrishikos.Fs.Inode.Blocks.{alloc_blocks, free_blocks, get_block}
use hrishikos.Fs.Inode.Blocks.Leak.{free_blocks_leaks}
use hrishikos.Fs.Inode.Blocks.Grow.{HasGrown, get_block-alloc_blocks}
use hrishikos.Fs.Inode.Sample.{Store, drive, superblock, zeros, no_inode}

-- Block 0 of 624 is used.
abbrev one_used : BitmapDisk
one_used = record {
  block = update (λ _. 0) 0 1;
  dirty = false;
  block_index = 0;
  total_bits = 624;
  used_bits = 1;
  start_sector = 622;
  sectors_per_block = 1;
  block_size = 512;
  block_count = 1;
}

one_used-HasRoom : HasRoom one_used
one_used-HasRoom = record {
  single = record { first = refl; fits = omega arith };
  one_block = refl;
  whole_words = refl;
  small = omega arith;
  room = omega arith;
}

-- Every entry is a file whose only block is block 0.
abbrev files : State Store
files = record {
  inode_bitmap = one_used;
  cache = λ i. record {
    inode = record no_inode { size = 100; block_count = 1 };
    index = 3;
    reference = 1;
    dirty = false;
    valid = true;
  };
  clock_hand = 0;
  data_bitmap = one_used;
  disk = λ lba i. 0;
}

free_blocks_example :
    (t : State Store) × (free_blocks drive superblock zeros files 4 1 ≡ some (true, t))
    × (t.data_bitmap ≡ one_used)
    × (t.disk ≡ files.disk)
    × ((t.cache 4).inode.blocks ≡ (files.cache 4).inode.blocks)
    × ((t.cache 4).inode.block_count + 1 ≡ 1)
free_blocks_example =
    free_blocks_leaks drive superblock zeros files 4 1 (omega arith) (omega arith) (omega arith)
      (omega arith) (omega arith) (omega arith)

alloc_blocks_example :
    ((r : ℕ) × (t : State Store) × (u : State Store) × (alloc_blocks drive superblock zeros files 4
          1
        ≡ some (true, t))
      × (get_block drive superblock zeros t 4 1 ≡ some (r, u))
      × HasGrown files 4 r t)
    ⊎ ((t : State Store) × (alloc_blocks drive superblock zeros files 4 1 ≡ some (false, t))
        × AllMarked one_used 0 624
        × (t.cache ≡ files.cache))
alloc_blocks_example =
    get_block-alloc_blocks drive superblock zeros files 4 (omega arith) (omega arith)
      one_used-HasRoom (omega arith) (omega arith)
