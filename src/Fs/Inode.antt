-- ===== src/Fs/Inode.antt =====
-- os/fs/fs_inode.c: the cache of inodes. The globals are the record `State`, with the state `S` of the
-- drive; an entry of the cache is named by its index, where the code passes a pointer to it. The
-- drive, the superblock and the way the compiler lays inodes out in a block are passed on, and
-- `garbage` is what stands in a fresh array. `none` is an access outside the cache.
pub mod Blocks
pub mod Cache
pub mod Evict
pub mod Search
pub mod Get
pub mod Table
pub mod Packed
pub mod Sample
mod Tests
use hrishikos.Base.{
  ◌>>=◌, ℕ, zero, suc, ◌+◌, ◌-◌, ◌*◌, ◌/◌, ◌%◌, ◌^◌, Bool, true, false, Option, none, some, ◌==◌,
  ltb, leb, if◌then◌else◌, u8, u64, add64, sub64,
}
use hrishikos.Clib.Bitmap
use hrishikos.Clib.Bitmap.{Drive, BitmapDisk, find_free_bit, failure}
use hrishikos.Fs.Superblock.{Superblock, block_to_sector}

abbrev pub cache_size : ℕ
cache_size = 128

abbrev pub root_directory_inode : ℕ
root_directory_inode = 0

pub record Inode : Type 0 where
  pub type : ℕ
  pub size : ℕ
  pub block_count : ℕ
  pub blocks : ℕ → ℕ
  pub first_indirect_table : ℕ
  pub second_indirect_table : ℕ
  pub third_indirect_table : ℕ

pub record CacheEntry : Type 0 where
  pub inode : Inode
  pub index : ℕ
  pub reference : ℕ
  pub dirty : Bool
  pub valid : Bool

pub record State (S : Type 0) : Type 0 where
  pub inode_bitmap : BitmapDisk
  pub cache : ℕ → CacheEntry
  pub clock_hand : ℕ
  pub data_bitmap : BitmapDisk
  pub disk : S

-- A block as an array of inodes.
pub record Layout : Type 0 where
  pub get : (ℕ → ℕ) → (i : ℕ) → Inode
  pub put : (ℕ → ℕ) → (i : ℕ) → Inode → ℕ → ℕ

module _ {S : Type 0} where
  abbrev pub set_entry : State S → (index : ℕ) → CacheEntry → State S
  set_entry s index e = record s { cache = λ i. if i == index then e else s.cache i }

  abbrev pub invalidate : State S → (index : ℕ) → State S
  invalidate s index = set_entry s index (record (s.cache index) { valid = false })

  pub entry_at : State S → (index : ℕ) → Option CacheEntry
  entry_at s index = if ltb index cache_size then some (s.cache index) else none

  -- The loop of `fs_inode_cache_search` over `left` entries from `i` on.
  pub search_loop : (left : ℕ) → State S → (index i : ℕ) → Option ℕ
  search_loop zero s index i = none
  search_loop (suc left) s index i =
      let rest = search_loop left s index (i + 1) in
      if (s.cache i).valid then (if (s.cache i).index == index then some i else rest) else rest

  pub cache_search : State S → (index : ℕ) → Option ℕ
  cache_search s index = search_loop cache_size s index 0

module _ {S : Type 0} (drive : Drive S) (superblock : Superblock) (layout : Layout)
    (garbage : ℕ → ℕ) where
  abbrev pub table_sector : (inode_table_block : ℕ) → ℕ
  table_sector inode_table_block =
      block_to_sector superblock (add64 superblock.inode_table_start inode_table_block)

  -- The block on the disk with one inode replaced; the sector count of a transfer is a `uint8_t`.
  abbrev pub write_inode : S → (inode_number : ℕ) → Inode → S
  write_inode disk inode_number inode =
      let sector = table_sector (inode_number / superblock.inodes_per_block) in
      let buffer = drive.read disk sector garbage (u8 superblock.block_sector_count) in
      drive.write disk sector (layout.put buffer (inode_number % superblock.inodes_per_block) inode)
        superblock.bytes_per_block

  pub entry_flush : State S → (index : ℕ) → Option (State S)
  entry_flush s index = do
    e ← entry_at s index
    some (
        if e.dirty
        then record (set_entry s index (record e { dirty = false })) {
          disk = write_inode s.disk e.index e.inode;
        }
        else s)

  -- -1 is the word `failure`.
  pub entry_evict : State S → Option (ℕ × State S)
  entry_evict s = do
    e ← entry_at s s.clock_hand
    flushed ← entry_flush s s.clock_hand
    some (
        if e.valid
        then (if e.reference == 0
            then (
              sub64 (add64 s.clock_hand 1) 1,
              record (invalidate flushed s.clock_hand) { clock_hand = add64 s.clock_hand 1 },
            )
            else (
              failure,
              record (set_entry s s.clock_hand (record e { reference = 0 })) {
                clock_hand =
                    if leb cache_size (add64 s.clock_hand 1) then 0 else add64 s.clock_hand 1;
              },
            ))
        else (failure, s))

  -- What follows the loop of `fs_inode_cache_evict`.
  pub evict_forced : State S → Option (ℕ × State S)
  evict_forced s = do
    flushed ← entry_flush s s.clock_hand
    let hand = add64 s.clock_hand 1
    let evicted = invalidate flushed s.clock_hand
    some (
        if leb cache_size hand
        then (cache_size - 1, record evicted { clock_hand = sub64 hand cache_size })
        else (sub64 hand 1, record evicted { clock_hand = hand }))

  pub evict_loop : (left : ℕ) → State S → Option (ℕ × State S)
  evict_loop zero s = evict_forced s
  evict_loop (suc left) s = do
    (index, t) ← entry_evict s
    if index == failure then evict_loop left t else some (index, t)

  pub cache_evict : State S → Option (ℕ × State S)
  cache_evict s = evict_loop cache_size s

  pub cache_add : State S → Inode → (index : ℕ) → Option (ℕ × State S)
  cache_add s inode index = do
    (slot, t) ← cache_evict s
    old ← entry_at t slot
    some (
      slot,
      set_entry t slot
          (record { inode = inode; index = index; reference = 1; dirty = false; valid = true }),
    )

  pub table_get : S → (inode_table_block table_index : ℕ) → Inode
  table_get disk inode_table_block table_index =
      layout.get
        (drive.read disk (table_sector inode_table_block) garbage
          (u8 superblock.block_sector_count))
        table_index

  -- What `fs_inode_get` does with the result of the search.
  pub get_found : State S → (index : ℕ) → Option ℕ → Option (ℕ × State S)
  get_found s index (some slot) =
      some (slot, set_entry s slot (record (s.cache slot) { reference = 1 }))
  get_found s index none =
      cache_add s
        (table_get s.disk (index / superblock.inodes_per_block)
          (index % superblock.inodes_per_block))
        index

  pub get : State S → (index : ℕ) → Option (ℕ × State S)
  get s index = get_found s index (cache_search s index)

  -- A new inode with no blocks; `fresh` is the local variable before.
  abbrev pub new_inode : (fresh : Inode) → (type : ℕ) → Inode
  new_inode fresh type = record fresh {
    type = type;
    size = 0;
    block_count = 0;
    blocks = λ i. failure;
  }

  pub create_forced : State S → (fresh : Inode) → (type index : ℕ) → Option (ℕ × State S)
  create_forced s fresh type index = do
    (slot, t) ← cache_add s (new_inode fresh type) index
    let (bitmap, disk) = Bitmap.set drive t.inode_bitmap t.disk index
    some (slot, record t { inode_bitmap = bitmap; disk = disk })

  -- The inner `none` is `NULL`.
  pub create : State S → (fresh : Inode) → (type : ℕ) → Option (Option ℕ × State S)
  create s fresh type =
      let (index, bitmap, disk) = find_free_bit drive s.inode_bitmap s.disk in
      let found = record s { inode_bitmap = bitmap; disk = disk } in
      if index == failure
      then some (none, found)
      else (do (slot, t) ← create_forced found fresh type index; some (some slot, t))

  -- The loop of `fs_inode_load` over `left` entries from `i` on.
  pub load_loop : (left : ℕ) → State S → (i : ℕ) → Option (State S)
  load_loop zero s i = some s
  load_loop (suc left) s i = do
    flushed ← entry_flush s i
    load_loop left (invalidate (if (s.cache i).valid then flushed else s) i) (i + 1)

  pub load : State S → (fresh : ℕ → ℕ) → (initialized : Bool) → Option (State S)
  load s fresh initialized = do
    let (bitmap, disk) =
        Bitmap.load drive s.inode_bitmap s.disk fresh initialized
          (block_to_sector superblock superblock.inode_bitmap_start) superblock.block_sector_count
          superblock.inode_max_count
    emptied ← load_loop cache_size (record s { inode_bitmap = bitmap; disk = disk }) 0
    some (record emptied { clock_hand = 0 })

  pub init : State S → (fresh : ℕ → ℕ) → State S
  init s fresh =
      let start = block_to_sector superblock superblock.inode_bitmap_start in
      let (b, d) =
        Bitmap.init drive s.inode_bitmap s.disk start superblock.block_sector_count
          superblock.inode_max_count in
      let (c, e) =
        Bitmap.load drive b d fresh true start superblock.block_sector_count
          superblock.inode_max_count in
      let (r, f) = Bitmap.set drive c e root_directory_inode in
      let (t, g) = Bitmap.flush drive r f in record s { inode_bitmap = t; disk = g }
