-- ===== src/Fs/Superblock/Layout.antt =====
-- os/fs/fs_superblock.c: the parts do not overlap.
use hrishikos.Base.{ℕ, ◌+◌, ◌-◌, ◌/◌, ◌%◌, ◌^◌, ◌≤◌, ◌<◌, ◌≡◌, arith, add64, sub64, mul64}
use native.Mathlib.Nat.{div-le_self}
use hrishikos.Fs.Superblock.{Superblock, calculate}

-- Each part ends before the next one starts.
pub record IsOrdered (s : Superblock) : Type 0 where
  pub superblock_first : s.superblock_start + s.superblock_block_count < s.inode_bitmap_start
  pub bitmap_next : s.inode_bitmap_start + s.inode_bitmap_block_count < s.inode_table_start
  pub table_next : s.inode_table_start + s.inode_table_block_count < s.data_bitmap_start
  pub data_last : s.data_bitmap_start + s.data_bitmap_block_count < s.data_blocks_start

-- The blocks that are left behind the inode table.
abbrev pub left_over : Superblock → ℕ
left_over s = s.block_count - (s.inode_table_start + s.inode_table_block_count)

-- For a block of 1 to 65536 sectors, less than 2 ^ 32 sectors and inodes, and a disk that holds the
-- inode table, the parts that `fs_superblock_calculate` lays out follow each other without an
-- overlap; and the data blocks end two blocks behind the disk's end, less the rest of the blocks
-- left over modulo 9.
pub calculate_lem :
    (magic spb disk inodes : ℕ)
    → 1 ≤ spb
    → spb ≤ 2 ^ 16
    → disk < 2 ^ 32
    → inodes < 2 ^ 32
    → let s = calculate magic spb disk inodes in
      s.inode_table_start + s.inode_table_block_count ≤ s.block_count
      → IsOrdered s
        × (s.data_blocks_start + s.data_blocks_block_count + left_over s % 9 ≡ s.block_count + 2)
unfolding calculate
calculate_lem magic spb disk inodes one small hd hi holds =
    let bpb = mul64 spb 512 in
    let per = bpb / 105 in
    let blocks = div-le_self disk spb in
    let super = div-le_self (sub64 (add64 140 bpb) 1) bpb in
    let table = div-le_self (sub64 (add64 inodes per) 1) per in
    (
      record {
        superblock_first = omega (arith, super);
        bitmap_next = omega (arith, super, table);
        table_next = omega (arith, super, table, blocks);
        data_last = omega (arith, super, table, blocks);
      },
      omega (arith, super, table, blocks, holds),
    )
