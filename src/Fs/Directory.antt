-- ===== src/Fs/Directory.antt =====
-- os/fs/fs_directory.c: the entries of a directory, over the inodes of Fs/Inode.antt. The state is
-- theirs; strings stand in memory as in Clib/Strings.antt, and `local` is the address of the array
-- that the name of an entry is copied to. How entries are laid out in a block is passed on. `none` is
-- an access outside an array, or a string that does not end within the fuel.
pub mod Named
pub mod Find
mod Tests
use hrishikos.Base.{
  ◌>>=◌, ℕ, zero, suc, ◌+◌, ◌-◌, ◌*◌, ◌/◌, ◌%◌, ◌^◌, Bool, true, false, ◌&&◌, Option, none, some,
  ◌==◌, ltb, leb, if◌then◌else◌, update, u8, add64, sub64, mul64,
}
use hrishikos.Clib.Bitmap.{Drive, failure}
use hrishikos.Clib.Strings.{strlen, strcmp, strncmp}
use hrishikos.Fs.Superblock.{Superblock}
use hrishikos.Fs.Data.{read_block, write_block}
use hrishikos.Fs.Inode.{State, Layout, entry_at, get}
use hrishikos.Fs.Inode.Blocks.{get_block, set_size}
use hrishikos.Fs.Path.{directory_failure}

abbrev pub entry_name_size : ℕ
entry_name_size = 54

abbrev pub entry_free : ℕ
entry_free = 254

-- The size of the packed struct.
abbrev pub entry_size : ℕ
entry_size = 64

pub record DirectoryEntry : Type 0 where
  pub inode : ℕ
  pub type : ℕ
  pub name_length : ℕ
  pub name : ℕ → ℕ

-- A block as an array of entries.
pub record EntryLayout : Type 0 where
  pub entry : (ℕ → ℕ) → (i : ℕ) → DirectoryEntry
  pub replace : (ℕ → ℕ) → (i : ℕ) → DirectoryEntry → ℕ → ℕ

pub entries_per_block : Superblock → ℕ
entries_per_block superblock = superblock.bytes_per_block / entry_size

pub entry_count : Superblock → (size : ℕ) → ℕ
entry_count superblock size =
    add64 (mul64 (size / superblock.bytes_per_block) (entries_per_block superblock))
      (size % superblock.bytes_per_block / entry_size)

-- The length of the name is a `uint8_t`; `fresh` is the local variable before.
pub entry_create :
    (fuel : ℕ) → (ℕ → ℕ) → (fresh : DirectoryEntry) → (inode type name : ℕ) → Option DirectoryEntry
entry_create fuel m fresh inode type name = do
  n ← strlen fuel m name
  if ltb entry_name_size (u8 n)
      then none
      else some (record {
        inode = inode;
        type = type;
        name_length = u8 n;
        name = λ i. if ltb i (u8 n) then m (name + i) else fresh.name i;
      })

-- Memory with the name of the entry, and a zero behind it, at `local`.
abbrev pub with_name : (ℕ → ℕ) → (local : ℕ) → DirectoryEntry → ℕ → ℕ
with_name m local e a =
    if leb local a && ltb a (local + e.name_length)
    then e.name (a - local)
    else if a == local + e.name_length
    then 0
    else m a

module _ {S : Type 0} (drive : Drive S) (superblock : Superblock) (layout : Layout)
    (garbage : ℕ → ℕ) (entries : EntryLayout) where
  -- The block that entry `i` is in, read over `block`.
  pub load_entry_block : State S → (slot i : ℕ) → (block : ℕ → ℕ) → Option (ℕ × (ℕ → ℕ) × State S)
  load_entry_block s slot i block = do
    (data_block, t) ← get_block drive superblock garbage s slot (i / entries_per_block superblock)
    some (data_block, read_block drive superblock t.disk data_block block, t)

  -- The entry; its type is the failure when there is none.
  pub entry_get :
      State S → DirectoryEntry → (directory_inode index : ℕ) → Option (DirectoryEntry × State S)
  entry_get s e directory_inode index = do
    (slot, t) ← get drive superblock layout garbage s directory_inode
    directory ← entry_at t slot
    if leb (entry_count superblock directory.inode.size) index
        then some (record e { type = directory_failure }, t)
        else (do
          (data_block, block, u) ← load_entry_block t slot index garbage
          some (entries.entry block (index % entries_per_block superblock), u))

  -- The block in which round `i` looks: a new one at the first entry of a block.
  pub find_block_of : State S → (slot i : ℕ) → (block : ℕ → ℕ) → Option ((ℕ → ℕ) × State S)
  find_block_of s slot i block =
      if i % entries_per_block superblock == 0
      then (do (data_block, loaded, t) ← load_entry_block s slot i block; some (loaded, t))
      else some (block, s)

  -- The loop from entry `i` on; `e` is the local variable.
  pub find_loop :
      (left fuel : ℕ)
      → (ℕ → ℕ)
      → (name local : ℕ) → State S
      → (slot i : ℕ) → (block : ℕ → ℕ) → DirectoryEntry
      → Option (DirectoryEntry × State S)
  find_loop zero fuel m name local s slot i block e =
      some (record e { type = directory_failure }, s)
  find_loop (suc left) fuel m name local s slot i block e = do
    (loaded, t) ← find_block_of s slot i block
    let found = entries.entry loaded (i % entries_per_block superblock)
    equal ←
        (if ltb found.name_length entry_name_size
          then strcmp fuel (with_name m local found) name local
          else none)
    if equal == 0
        then find_loop left fuel m name local t slot (i + 1) loaded found
        else some (found, t)

  pub entry_find :
      (fuel : ℕ)
      → (ℕ → ℕ)
      → (local : ℕ) → State S
      → DirectoryEntry
      → (directory_inode name : ℕ) → Option (DirectoryEntry × State S)
  entry_find fuel m local s fresh directory_inode name = do
    (slot, t) ← get drive superblock layout garbage s directory_inode
    directory ← entry_at t slot
    find_loop (entry_count superblock directory.inode.size) fuel m name local t slot 0 garbage fresh

  -- The loop of `fs_directory_entry_del` from entry `i` on; the names are compared over the length of
  -- the entry's.
  pub del_loop :
      (left : ℕ)
      → (ℕ → ℕ)
      → (name local : ℕ) → State S
      → (slot i : ℕ) → (block : ℕ → ℕ) → Option (Bool × State S)
  del_loop zero m name local s slot i block = some (false, s)
  del_loop (suc left) m name local s slot i block = do
    (data_block, read, t) ← load_entry_block s slot i block
    let loaded = if i % entries_per_block superblock == 0 then read else block
    let found = entries.entry loaded (i % entries_per_block superblock)
    if strncmp (with_name m local found) name local found.name_length == 0
        then del_loop left m name local t slot (i + 1) loaded
        else some (
          true,
          record t {
            disk = write_block drive superblock t.disk data_block (
                entries.replace loaded (i % entries_per_block superblock) (record {
                  inode = failure;
                  type = entry_free;
                  name_length = 0;
                  name = update found.name 0 0;
                }));
          },
        )

  pub entry_del :
      (ℕ → ℕ) → (local : ℕ) → State S → (directory_inode name : ℕ) → Option (Bool × State S)
  entry_del m local s directory_inode name = do
    (slot, t) ← get drive superblock layout garbage s directory_inode
    directory ← entry_at t slot
    del_loop (entry_count superblock directory.inode.size) m name local t slot 0 garbage

  abbrev pub write_entry : State S → (data_block : ℕ) → (ℕ → ℕ) → (i : ℕ) → DirectoryEntry → State S
  write_entry s data_block block i e = record s {
    disk = write_block drive superblock s.disk data_block (entries.replace block i e);
  }

  -- The loop of `fs_directory_entry_add` from entry `i` on; true when it has found room.
  pub add_loop :
      (left : ℕ)
      → State S
      → (slot i : ℕ) → (block : ℕ → ℕ) → DirectoryEntry
      → Option (Bool × State S)
  add_loop zero s slot i block e = some (false, s)
  add_loop (suc left) s slot i block e = do
    (data_block, loaded, t) ← load_entry_block s slot i block
    let entry_index = i % entries_per_block superblock
    if (entries.entry loaded entry_index).type == entry_free
        then some (true, write_entry t data_block loaded entry_index e)
        else add_loop left t slot (i + 1) loaded e

  -- What follows the loop; `count` is the count of entries before.
  pub append_entry : State S → (slot count : ℕ) → DirectoryEntry → Option (State S)
  append_entry s slot count e = do
    old ← entry_at s slot
    (grown, t) ← set_size drive superblock garbage s slot (add64 old.inode.size entry_size)
    (data_block, u) ←
        get_block drive superblock garbage t slot (count / entries_per_block superblock)
    let entry_index = count % entries_per_block superblock
    after ← entry_at u slot
    (padded, v) ←
        (if entry_index == 0
          then set_size drive superblock garbage u slot (
              add64 after.inode.size
                (sub64 superblock.bytes_per_block (entries_per_block superblock * entry_size)))
          else some (true, u))
    some (
        write_entry v data_block (read_block drive superblock v.disk data_block garbage) entry_index
          e)

  pub entry_add : State S → (directory_inode : ℕ) → DirectoryEntry → Option (State S)
  entry_add s directory_inode e = do
    (slot, t) ← get drive superblock layout garbage s directory_inode
    directory ← entry_at t slot
    let count = entry_count superblock directory.inode.size
    if count == 0
        then (do
          (grown, u) ←
              set_size drive superblock garbage t slot (add64 directory.inode.size entry_size)
          (data_block, block, v) ← load_entry_block u slot 0 garbage
          some (write_entry v data_block block 0 e))
        else (do
          (found, u) ← add_loop count t slot 0 garbage e
          if found then some u else append_entry u slot count e)
