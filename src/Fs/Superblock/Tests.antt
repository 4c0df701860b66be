-- ===== src/Fs/Superblock/Tests.antt =====
-- os/fs/fs_superblock.c at the fixed size: blocks of a sector, 1024 sectors and 64 inodes.
use hrishikos.Base.{◌+◌, ◌%◌, ◌≤◌, ◌≡◌, refl, arith}
use hrishikos.Fs.Superblock.{Superblock, calculate}
use hrishikos.Fs.Superblock.Layout.{IsOrdered, left_over, calculate_lem}

abbrev system : Superblock
system = calculate 0 1 1024 64

data_end : system.data_blocks_start + system.data_blocks_block_count ≡ 1025
unfolding calculate
data_end = refl

table_fits : system.inode_table_start + system.inode_table_block_count ≤ system.block_count
unfolding calculate
table_fits = omega arith

calculate_example :
    IsOrdered system
    × (system.data_blocks_start + system.data_blocks_block_count + left_over system % 9
        ≡ system.block_count + 2)
calculate_example =
    calculate_lem 0 1 1024 64 (omega arith) (omega arith) (omega arith) (omega arith) table_fits
