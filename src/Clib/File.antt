-- ===== src/Clib/File.antt =====
-- os/lib/file.c: the cursor of an open file, reading, writing and closing, over the inodes of
-- Fs/Inode.antt. The file's block is memory as the drive's buffers are, a function from the index to
-- the 64-bit word, of which the bytes are taken, the lowest one first; the caller's buffer is a
-- function from the index to the byte. `none` is an access outside the cache or an array.
pub mod Loop
pub mod Read
mod Tests
use hrishikos.Base.{
  ◌>>=◌, ℕ, zero, suc, ◌+◌, ◌-◌, ◌*◌, ◌/◌, ◌%◌, ◌^◌, Bool, true, false, ◌&&◌, Option, none, some,
  ◌==◌, ltb, leb, if◌then◌else◌, update, u64, add64, sub64,
}
use hrishikos.Clib.Bitmap.{Drive, failure}
use hrishikos.Fs.Superblock.{Superblock, round_up}
use hrishikos.Fs.Data.{read_block, write_block}
use hrishikos.Fs.Inode.{Inode, CacheEntry, State, Layout, entry_at, set_entry, get}
use hrishikos.Fs.Inode.Blocks.{get_block, alloc_blocks}

pub record File : Type 0 where
  pub block : ℕ → ℕ
  pub block_id : ℕ
  pub block_index : ℕ
  pub dirty : Bool
  pub cursor : ℕ
  pub inode : ℕ
  pub read : Bool
  pub write : Bool

-- Byte `i` of a block of words, and the block with that byte replaced.
pub get_byte : (ℕ → ℕ) → (i : ℕ) → ℕ
get_byte block i = block (i / 8) / 2 ^ (8 * (i % 8)) % 2 ^ 8

pub set_byte : (ℕ → ℕ) → (i byte : ℕ) → ℕ → ℕ
set_byte block i byte =
    let place = 2 ^ (8 * (i % 8)) in
    update block (i / 8) (block (i / 8) - get_byte block i * place + byte * place)

-- The count that is left of what is asked for.
abbrev pub read_count : (cursor size count : ℕ) → ℕ
read_count cursor size count =
    if ltb size (add64 cursor count) then sub64 count (sub64 (add64 cursor count) size) else count

module _ {S : Type 0} (drive : Drive S) (superblock : Superblock) (layout : Layout)
    (garbage : ℕ → ℕ) where
  -- `if (file->dirty)` the block is written; the flag stays.
  pub write_back : S → File → S
  write_back disk file =
      if file.dirty then write_block drive superblock disk file.block_id file.block else disk

  -- The step to the next block of the file, when the cursor is at the start of one.
  pub next_block : State S → File → (slot : ℕ) → Option (File × State S)
  next_block s file slot =
      if file.cursor % superblock.bytes_per_block == 0
      then (do
        let index = add64 file.block_index 1
        (block_id, t) ←
            get_block drive superblock garbage (record s { disk = write_back s.disk file }) slot
              index
        some (
          record file {
            block_index = index;
            block_id = block_id;
            block = read_block drive superblock t.disk block_id file.block;
          },
          t,
        ))
      else some (file, s)

  pub read_loop :
      (left : ℕ)
      → State S
      → File
      → (buffer : ℕ → ℕ) → (slot i : ℕ) → Option ((ℕ → ℕ) × File × State S)
  read_loop zero s file buffer slot i = some (buffer, file, s)
  read_loop (suc left) s file buffer slot i = do
    (loaded, t) ← next_block s file slot
    read_loop left t (record loaded { cursor = add64 loaded.cursor 1 })
        (update buffer i (get_byte loaded.block (loaded.cursor % superblock.bytes_per_block))) slot
        (i + 1)

  -- The number of bytes read, and the buffer.
  pub file_read :
      State S → File → (buffer : ℕ → ℕ) → (count : ℕ) → Option (ℕ × (ℕ → ℕ) × File × State S)
  file_read s file buffer count =
      if file.read
      then (do
        (slot, t) ← get drive superblock layout garbage s file.inode
        e ← entry_at t slot
        if ltb e.inode.size file.cursor then some (0, buffer, file, t) else (do
          let left = read_count file.cursor e.inode.size count
          (filled, after, u) ← read_loop left t file buffer slot 0
          some (left, filled, after, u)))
      else some (0, buffer, file, s)

  pub write_loop :
      (left : ℕ) → State S → File → (buffer : ℕ → ℕ) → (slot i : ℕ) → Option (File × State S)
  write_loop zero s file buffer slot i = some (file, s)
  write_loop (suc left) s file buffer slot i = do
    (loaded, t) ← next_block s file slot
    write_loop left t
        (record loaded {
          block = set_byte loaded.block (loaded.cursor % superblock.bytes_per_block) (buffer i);
          dirty = true;
          cursor = add64 loaded.cursor 1;
        })
        buffer slot (i + 1)

  -- The blocks for what lies behind the end; what the allocation returns is ignored.
  pub extend : State S → File → (slot size count : ℕ) → Option (State S)
  extend s file slot size count =
      if ltb size (add64 file.cursor count)
      then (do
        (succeeded, t) ←
            alloc_blocks drive superblock garbage s slot
              (round_up (sub64 (add64 file.cursor count) size) superblock.bytes_per_block)
        some t)
      else some s

  pub file_write : State S → File → (buffer : ℕ → ℕ) → (count : ℕ) → Option (ℕ × File × State S)
  file_write s file buffer count =
      if file.write
      then (do
        (slot, t) ← get drive superblock layout garbage s file.inode
        e ← entry_at t slot
        extended ← extend t file slot e.inode.size count
        (after, u) ← write_loop count extended file buffer slot 0
        last ← entry_at u slot
        some (
          count,
          after,
          set_entry u slot
              (record last { inode = record last.inode { size = add64 last.inode.size count } }),
        ))
      else some (0, file, s)

  -- `offset` is the 64-bit word of an `int64_t`. A `some true` is a path that ends without a
  -- `return`.
  pub file_seek : State S → File → (offset seek : ℕ) → Option (Bool × File × State S)
  file_seek s file offset seek = do
    (slot, t) ← get drive superblock layout garbage s file.inode
    e ← entry_at t slot
    some (
        if seek == 0
        then (if leb (2 ^ 63) offset
            then (false, file, t)
            else (true, record file { cursor = offset }, t))
        else if seek == 1
        then (true, record file { cursor = add64 file.cursor offset }, t)
        else if seek == 2
        then (true, record file { cursor = add64 file.cursor e.inode.size }, t)
        else (false, file, t))

  pub file_close : State S → File → State S
  file_close s file = record s { disk = write_back s.disk file }

pub file_tell : File → ℕ
file_tell file = file.cursor
