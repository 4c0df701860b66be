-- ===== src/Fs/Superblock.antt =====
-- os/fs/fs_superblock.c and os/fs/fs_helper.c: where the parts of the file system stand.
pub mod Layout
mod Tests
use hrishikos.Base.{ℕ, ◌+◌, ◌-◌, ◌*◌, ◌/◌, ◌%◌, ◌^◌, add64, sub64, mul64}

abbrev pub sector_bytes : ℕ
sector_bytes = 512

abbrev pub system_start_sector : ℕ
system_start_sector = 300

-- The sizes of the two packed structs.
abbrev pub superblock_size : ℕ
superblock_size = 140

abbrev pub inode_size : ℕ
inode_size = 105

pub record Superblock : Type 0 where
  pub magic_number : ℕ
  pub start_sector : ℕ
  pub block_sector_count : ℕ
  pub block_count : ℕ
  pub bytes_per_sector : ℕ
  pub bytes_per_block : ℕ
  pub superblock_start : ℕ
  pub superblock_block_count : ℕ
  pub inodes_per_block : ℕ
  pub inode_max_count : ℕ
  pub inode_bitmap_start : ℕ
  pub inode_bitmap_block_count : ℕ
  pub inode_table_start : ℕ
  pub inode_table_block_count : ℕ
  pub data_bitmap_start : ℕ
  pub data_bitmap_block_count : ℕ
  pub data_blocks_start : ℕ
  pub data_blocks_block_count : ℕ

-- `(a + b - 1) / b`
abbrev pub round_up : (a b : ℕ) → ℕ
round_up a b = sub64 (add64 a b) 1 / b

pub size_to_blocks : Superblock → (size : ℕ) → ℕ
size_to_blocks superblock size = round_up size superblock.bytes_per_block

pub block_to_sector : Superblock → (block : ℕ) → ℕ
block_to_sector superblock block =
    add64 superblock.start_sector (mul64 block superblock.block_sector_count)

pub size_to_sectors : (size : ℕ) → ℕ
size_to_sectors size = round_up size sector_bytes

-- The local struct's magic number is what stood there, `magic`.
pub calculate : (magic sectors_per_block disk_sector_count inode_count : ℕ) → Superblock
calculate magic sectors_per_block disk_sector_count inode_count =
    let bytes_per_block = mul64 sectors_per_block sector_bytes in
    let block_count = disk_sector_count / sectors_per_block in
    let superblock_block_count = round_up superblock_size bytes_per_block in
    let inodes_per_block = bytes_per_block / inode_size in
    let inode_table_block_count = round_up inode_count inodes_per_block in
    let inode_bitmap_start = add64 (add64 system_start_sector superblock_block_count) 1 in
    let inode_bitmap_block_count = add64 inode_table_block_count 7 / 8 in
    let inode_table_start = add64 (add64 inode_bitmap_start inode_bitmap_block_count) 1 in
    let left = sub64 block_count (add64 inode_table_start inode_table_block_count) in
    let remaining_blocks = left - left % 9 in
    let data_bitmap_start = add64 (add64 inode_table_start inode_table_block_count) 1 in
    let data_bitmap_block_count = remaining_blocks / 9 in
    record {
      magic_number = magic;
      start_sector = system_start_sector;
      block_sector_count = sectors_per_block;
      block_count = block_count;
      bytes_per_sector = sector_bytes;
      bytes_per_block = bytes_per_block;
      superblock_start = system_start_sector;
      superblock_block_count = superblock_block_count;
      inodes_per_block = inodes_per_block;
      inode_max_count = inode_count;
      inode_bitmap_start = inode_bitmap_start;
      inode_bitmap_block_count = inode_bitmap_block_count;
      inode_table_start = inode_table_start;
      inode_table_block_count = inode_table_block_count;
      data_bitmap_start = data_bitmap_start;
      data_bitmap_block_count = data_bitmap_block_count;
      data_blocks_start = add64 (add64 data_bitmap_start data_bitmap_block_count) 1;
      data_blocks_block_count = data_bitmap_block_count * 8;
    }
