-- ===== src/Fs/Inode/Sample.antt =====
-- os/fs/fs_inode.c: a drive, a layout, a superblock and caches to run it on.
use hrishikos.Base.{ℕ, refl, arith, false, ◌==◌, if◌then◌else◌, u64}
use hrishikos.Clib.Bitmap.{Drive, BitmapDisk}
use hrishikos.Fs.Superblock.{Superblock}
use hrishikos.Fs.Inode.{Inode, State}
use hrishikos.Fs.Inode.Search.{IsUnique}
use hrishikos.Fs.Inode.Table.{ReadsBack, IsLayout, IsWhole, IsRepresentable}
use hrishikos.Fs.Inode.Packed.{packed}
use hrishikos.Fs.Inode.Packed.Fields.{packed-IsLayout}

-- A drive that keeps the words that were written at each sector.
abbrev pub Store : Type 0
Store = ℕ → ℕ → ℕ

abbrev pub drive : Drive Store
drive = record {
  read = λ s lba buffer count w. u64 (s lba w);
  write = λ s lba buffer size l. if l == lba then buffer else s l;
}

pub drive-ReadsBack : ReadsBack drive
drive-ReadsBack = record {
  read_words = λ disk lba old count few w h. omega arith;
  same = λ disk lba buffer old count i few fits h. ground (arith, fits i h);
}

pub packed-IsLayout_sector : IsLayout packed 4 64
packed-IsLayout_sector = packed-IsLayout 4 64 (omega arith)

-- Blocks of one sector, as the system has them.
abbrev pub superblock : Superblock
superblock = record {
  magic_number = 0;
  start_sector = 300;
  block_sector_count = 1;
  block_count = 1024;
  bytes_per_sector = 512;
  bytes_per_block = 512;
  superblock_start = 300;
  superblock_block_count = 1;
  inodes_per_block = 4;
  inode_max_count = 64;
  inode_bitmap_start = 302;
  inode_bitmap_block_count = 2;
  inode_table_start = 305;
  inode_table_block_count = 16;
  data_bitmap_start = 322;
  data_bitmap_block_count = 78;
  data_blocks_start = 401;
  data_blocks_block_count = 624;
}

pub superblock-IsWhole : IsWhole superblock
superblock-IsWhole = record { bytes = refl; few = omega arith; room = omega arith }

abbrev no_bits : BitmapDisk
no_bits = record {
  block = λ _. 0;
  dirty = false;
  block_index = 0;
  total_bits = 64;
  used_bits = 0;
  start_sector = 602;
  sectors_per_block = 1;
  block_size = 512;
  block_count = 1;
}

abbrev pub no_inode : Inode
no_inode = record {
  type = 0;
  size = 0;
  block_count = 0;
  blocks = λ _. 0;
  first_indirect_table = 0;
  second_indirect_table = 0;
  third_indirect_table = 0;
}

-- A cache with the hand on the last entry, which alone is taken, by inode 6, and dirty.
abbrev pub last_taken : (reference : ℕ) → State Store
last_taken reference = record {
  inode_bitmap = no_bits;
  cache = λ i. record {
    inode = record no_inode { size = 700 };
    index = 6;
    reference = reference;
    dirty = i == 127;
    valid = i == 127;
  };
  clock_hand = 127;
  data_bitmap = no_bits;
  disk = λ lba i. 0;
}

abbrev pub none_taken : State Store
none_taken = record (last_taken 0) { clock_hand = 5 }

abbrev pub zeros : ℕ → ℕ
zeros _ = 0

pub last_taken-IsUnique : (reference : ℕ) → IsUnique (last_taken reference)
last_taken-IsUnique reference i j index hi hj fi fj = ground (arith, fi.0, fj.0)

pub last_taken-IsRepresentable :
    (reference slot : ℕ) → IsRepresentable ((last_taken reference).cache slot).inode
last_taken-IsRepresentable reference slot = record {
  type = omega arith;
  size = omega arith;
  block_count = omega arith;
  blocks = λ i h. omega arith;
  first = omega arith;
  second = omega arith;
  third = omega arith;
}
