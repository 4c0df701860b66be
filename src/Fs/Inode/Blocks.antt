-- ===== src/Fs/Inode/Blocks.antt =====
-- os/fs/fs_inode.c: the blocks of a file, directly in its inode and behind tables on the disk, and
-- os/lib/math.c. `none` is an access outside the cache or an array, or the use of a variable that was
-- never set. The tables are read into memory of `malloc`, of which `garbage` is the content.
pub mod Leak
pub mod Direct
pub mod Grow
mod Tests
use hrishikos.Base.{
  ◌>>=◌, ℕ, zero, suc, ◌+◌, ◌-◌, ◌*◌, ◌/◌, ◌%◌, ◌^◌, Bool, true, false, ◌&&◌, ◌||◌, not, Option,
  none, some, ◌==◌, ltb, leb, if◌then◌else◌, update, u64, add64, sub64, mul64,
}
use hrishikos.Clib.Bitmap
use hrishikos.Clib.Bitmap.{Drive, failure}
use hrishikos.Fs.Superblock.{Superblock, size_to_blocks}
use hrishikos.Fs.Data.{read_block, write_block, alloc_data_block, free_data_block}
use hrishikos.Fs.Inode.{Inode, CacheEntry, State, Layout, entry_at, set_entry, entry_flush}

abbrev pub table_pointer_count : ℕ
table_pointer_count = 8

abbrev pub indirect_pointer_count : ℕ
indirect_pointer_count = 64

pub pow_loop : (left base result : ℕ) → ℕ
pow_loop zero base result = result
pow_loop (suc left) base result = pow_loop left base (mul64 result base)

-- For arguments that are not negative.
pub pow : (base exponent : ℕ) → ℕ
pow base exponent = pow_loop exponent base 1

pub table_cutoff : ℕ
table_cutoff = table_pointer_count + 1

pub first_cutoff : ℕ
first_cutoff = table_cutoff + indirect_pointer_count

pub second_cutoff : ℕ
second_cutoff = add64 first_cutoff (pow indirect_pointer_count 2)

pub third_cutoff : ℕ
third_cutoff = add64 second_cutoff (pow indirect_pointer_count 3)

-- `inode.blocks[index]`
abbrev pub direct_block : Inode → (index : ℕ) → Option ℕ
direct_block inode index = if ltb index table_pointer_count then some (inode.blocks index) else none

module _ {S : Type 0} (drive : Drive S) (superblock : Superblock) (garbage : ℕ → ℕ) where
  -- `buffer->blocks[index]` after the table has been read.
  abbrev pub in_table : S → (table index : ℕ) → Option ℕ
  in_table disk table index =
      if ltb index indirect_pointer_count
      then some (read_block drive superblock disk table garbage index)
      else none

  -- The four branches of `fs_inode_get_block`.
  pub find_block : S → Inode → (index : ℕ) → Option ℕ
  find_block disk inode index =
      let rest = sub64 index table_pointer_count in
      if ltb index table_cutoff
      then direct_block inode index
      else if ltb index first_cutoff
      then in_table disk inode.first_indirect_table rest
      else if ltb index second_cutoff
      then (do
        let second_index = rest / indirect_pointer_count
        let first_index = sub64 rest (mul64 second_index indirect_pointer_count)
        first_table ← in_table disk inode.second_indirect_table second_index
        in_table disk first_table first_index)
      else (do
        let squared = pow indirect_pointer_count 2
        let third_index = rest / squared
        let second_index = sub64 rest (mul64 third_index squared) / indirect_pointer_count
        let first_index =
            sub64 (sub64 rest (mul64 second_index indirect_pointer_count))
              (mul64 third_index squared)
        second_table ← in_table disk inode.third_indirect_table third_index
        first_table ← in_table disk second_table second_index
        in_table disk first_table first_index)

  pub get_block : State S → (slot index : ℕ) → Option (ℕ × State S)
  get_block s slot index = do
    e ← entry_at s slot
    (if leb e.inode.block_count index || leb third_cutoff index then some (failure, s) else (do
      block ← find_block s.disk e.inode index
      some (block, set_entry s slot (record e { reference = 1 }))))

  -- The branch on the first table.
  abbrev pub set_in_table : S → (table index block : ℕ) → Option S
  set_in_table disk table index block =
      if ltb index indirect_pointer_count
      then some (
          write_block drive superblock disk table
            (update (read_block drive superblock disk table garbage) index block))
      else none

  -- The branches on the second and the third table compute an index from a variable that is not yet
  -- set.
  pub set_block : State S → (slot table_index data_index : ℕ) → Option (State S)
  set_block s slot table_index data_index = do
    e ← entry_at s slot
    (if leb third_cutoff table_index || ltb superblock.data_blocks_block_count data_index
        then some s
        else if ltb table_index table_cutoff
        then (if ltb table_index table_pointer_count
            then some (
                set_entry s slot (record e {
                  inode = record e.inode { blocks = update e.inode.blocks table_index data_index };
                  reference = 1;
                  dirty = true;
                }))
            else none)
        else if ltb table_index first_cutoff
        then (do
          disk ←
              set_in_table s.disk e.inode.first_indirect_table
                (sub64 table_index table_pointer_count) data_index
          some (record (set_entry s slot (record e { reference = 1; dirty = true })) {
            disk = disk;
          }))
        else none)

  -- The loop of `fs_inode_alloc_blocks` at round `i`, whose new blocks come behind the
  -- `block_count` old ones. Freeing the failure, before the return, is the call of the source.
  pub alloc_loop : (left : ℕ) → State S → (slot block_count i : ℕ) → Option (Bool × State S)
  alloc_loop zero s slot block_count i = some (true, s)
  alloc_loop (suc left) s slot block_count i =
      let (block, bitmap, disk) = alloc_data_block drive s.data_bitmap s.disk in
      let allocated = record s { data_bitmap = bitmap; disk = disk } in
      let (freed, after) = free_data_block drive bitmap disk block in
      if block == failure then some (false, record s { data_bitmap = freed; disk = after }) else (do
        t ← set_block allocated slot (add64 block_count i) block
        alloc_loop left t slot block_count (i + 1))

  -- The end of the two functions that follow; `change` is for the count of the blocks.
  abbrev pub finish_blocks : (change : ℕ → ℕ) → (slot : ℕ) → State S → Option (Bool × State S)
  finish_blocks change slot s = do
    e ← entry_at s slot
    some (
      true,
      set_entry s slot (record e {
        inode = record e.inode { block_count = change e.inode.block_count };
        reference = 1;
        dirty = true;
      }),
    )

  pub alloc_blocks : State S → (slot count : ℕ) → Option (Bool × State S)
  alloc_blocks s slot count = do
    e ← entry_at s slot
    (if count == 0 then some (true, s) else (do
      (succeeded, t) ← alloc_loop count s slot e.inode.block_count 0
      if succeeded then finish_blocks (λ n. add64 n count) slot t else some (false, t)))

  -- The loop of `fs_inode_free_blocks` at round `i`.
  pub free_loop : (left : ℕ) → State S → (slot block_count i : ℕ) → Option (State S)
  free_loop zero s slot block_count i = some s
  free_loop (suc left) s slot block_count i = do
    (block, t) ← get_block s slot (add64 block_count i)
    let (bitmap, disk) = free_data_block drive t.data_bitmap t.disk block
    cleared ←
        set_block (record t { data_bitmap = bitmap; disk = disk }) slot (add64 block_count i)
          failure
    free_loop left cleared slot block_count (i + 1)

  pub free_blocks : State S → (slot count : ℕ) → Option (Bool × State S)
  free_blocks s slot count = do
    e ← entry_at s slot
    (if count == 0
        then some (true, s)
        else if ltb e.inode.block_count count
        then some (false, s)
        else (do
          let left = e.inode.block_count - count
          let shrunk = set_entry s slot (record e { inode = record e.inode { block_count = left } })
          t ← free_loop count shrunk slot left 0
          finish_blocks (λ n. n) slot t))

  -- The difference of the counts is an `int64_t`.
  pub set_size : State S → (slot size : ℕ) → Option (Bool × State S)
  set_size s slot size = do
    e ← entry_at s slot
    let change = sub64 (size_to_blocks superblock size) (size_to_blocks superblock e.inode.size)
    (succeeded, t) ←
        (if ltb 0 change && ltb change (2 ^ 63)
          then alloc_blocks s slot change
          else free_blocks s slot (u64 (2 ^ 64 - change)))
    after ← entry_at t slot
    some (
      succeeded,
      if succeeded
          then set_entry t slot (record after {
            inode = record after.inode { size = size };
            reference = 1;
            dirty = true;
          })
          else t,
    )

  module _ (layout : Layout) where
    pub destroy : State S → (slot : ℕ) → Option (State S)
    destroy s slot = do
      e ← entry_at s slot
      (freed, t) ← free_blocks s slot e.inode.block_count
      let (bitmap, disk) = Bitmap.unset drive t.inode_bitmap t.disk e.index
      after ← entry_at t slot
      let emptied =
          set_entry (record t { inode_bitmap = bitmap; disk = disk }) slot
            (record after {
              inode = record after.inode { type = 0; size = 0; block_count = 0 };
              reference = 0;
              dirty = true;
            })
      flushed ← entry_flush drive superblock layout garbage emptied slot
      last ← entry_at flushed slot
      some (set_entry flushed slot (record last { valid = false }))
