-- ===== src/Fs/Inode/Table.antt =====
-- os/fs/fs_inode.c: the table of inodes on the disk, which an entry of the cache is flushed to.
use hrishikos.Base.{
  ℕ, ◌*◌, ◌/◌, ◌%◌, ◌<◌, ◌≡◌, ◌≢◌, ◌^◌, arith, sym, subst, ap, ◌∙◌, true, false, some, if_true, u8,
}
use native.Mathlib.Nat.{mod-lt}
use hrishikos.Clib.Bitmap.{Drive}
use hrishikos.Fs.Superblock.{Superblock}
use hrishikos.Fs.Inode.{
  Inode, CacheEntry, State, Layout, set_entry, entry_flush, table_get, table_sector,
}
use hrishikos.Fs.Inode.Cache.{entry_flush_lem, set_entry_self}

-- The fields of an inode, with the eight blocks it has room for.
pub record IsStored (x y : Inode) : Type 0 where
  pub type : y.type ≡ x.type
  pub size : y.size ≡ x.size
  pub block_count : y.block_count ≡ x.block_count
  pub blocks : (i : ℕ) → i < 8 → y.blocks i ≡ x.blocks i
  pub first : y.first_indirect_table ≡ x.first_indirect_table
  pub second : y.second_indirect_table ≡ x.second_indirect_table
  pub third : y.third_indirect_table ≡ x.third_indirect_table

pub IsStored-trans : (x y z : Inode) → IsStored x y → IsStored y z → IsStored x z
IsStored-trans x y z p q = record {
  type = q.type ∙ p.type;
  size = q.size ∙ p.size;
  block_count = q.block_count ∙ p.block_count;
  blocks = λ i h. q.blocks i h ∙ p.blocks i h;
  first = q.first ∙ p.first;
  second = q.second ∙ p.second;
  third = q.third ∙ p.third;
}

-- What fits the fields of the struct: a type of 8 bits, numbers of 64.
pub record IsRepresentable (x : Inode) : Type 0 where
  pub type : x.type < 2 ^ 8
  pub size : x.size < 2 ^ 64
  pub block_count : x.block_count < 2 ^ 64
  pub blocks : (i : ℕ) → i < 8 → x.blocks i < 2 ^ 64
  pub first : x.first_indirect_table < 2 ^ 64
  pub second : x.second_indirect_table < 2 ^ 64
  pub third : x.third_indirect_table < 2 ^ 64

-- The first words of a buffer are words of 64 bits.
abbrev pub AreWords : (ℕ → ℕ) → (count : ℕ) → Type 0
AreWords b count = (w : ℕ) → w < count → b w < 2 ^ 64

-- What is relied on of the drive: it reads words, and whole sectors that were written, of a number
-- that its parameter of 8 bits can say, are read again.
pub record ReadsBack {S : Type 0} (drive : Drive S) : Type 0 where
  pub read_words :
      (disk : S) (lba : ℕ) (old : ℕ → ℕ) (count : ℕ)
      → count < 256
      → AreWords (drive.read disk lba old count) (count * 64)
  pub same :
      (disk : S) (lba : ℕ) (buffer old : ℕ → ℕ) (count i : ℕ)
      → count < 256
      → AreWords buffer (count * 64)
      → i < count * 64
      → drive.read (drive.write disk lba buffer (count * 512)) lba old count i ≡ buffer i

-- What is relied on of the compiler's layout: an inode that fits the struct is read again, and the
-- inodes of a block do not overlap and lie within it. `packed` is such a layout.
pub record IsLayout (layout : Layout) (inodes words : ℕ) : Type 0 where
  pub put_words :
      (b : ℕ → ℕ) (i : ℕ) (x : Inode)
      → i < inodes
      → IsRepresentable x
      → AreWords b words
      → AreWords (layout.put b i x) words
  pub replaced :
      (b : ℕ → ℕ) (i : ℕ) (x : Inode)
      → i < inodes
      → IsRepresentable x
      → IsStored x (layout.get (layout.put b i x) i)
  pub others :
      (b : ℕ → ℕ) (i j : ℕ) (x : Inode)
      → i < inodes
      → j < inodes
      → j ≢ i
      → IsStored (layout.get b j) (layout.get (layout.put b i x) j)
  pub local :
      (b c : ℕ → ℕ) (i : ℕ)
      → i < inodes
      → ((w : ℕ) → w < words → c w ≡ b w)
      → IsStored (layout.get b i) (layout.get c i)

-- A block of whole sectors, fewer than 256, with room for an inode.
pub record IsWhole (superblock : Superblock) : Type 0 where
  pub bytes : superblock.bytes_per_block ≡ superblock.block_sector_count * 512
  pub few : superblock.block_sector_count < 256
  pub room : 0 < superblock.inodes_per_block

module _ {S : Type 0} (drive : Drive S) (superblock : Superblock) (layout : Layout)
    (garbage : ℕ → ℕ) where
  abbrev inode_on : S → (number : ℕ) → Inode
  inode_on disk number =
      table_get drive superblock layout garbage disk (number / superblock.inodes_per_block)
        (number % superblock.inodes_per_block)

  -- With a drive that reads back the words that were written, a layout that keeps inodes apart, and
  -- blocks of whole sectors, fewer than 256, with room for an inode, `fs_inode_cache_entry_flush` of a
  -- dirty entry whose inode fits the struct makes the entry clean and puts its inode into the table on
  -- the disk; every other inode of that block of the table stays.
  pub table_get-entry_flush :
      (s : State S) (slot : ℕ)
      → ReadsBack drive
      → IsLayout layout superblock.inodes_per_block (superblock.block_sector_count * 64)
      → IsWhole superblock
      → slot < 128
      → IsRepresentable (s.cache slot).inode
      → (s.cache slot).dirty ≡ true
      → let n = (s.cache slot).index in
        (t : State S) × (entry_flush drive superblock layout garbage s slot ≡ some t)
        × ((t.cache slot).dirty ≡ false)
        × IsStored (s.cache slot).inode (
            table_get drive superblock layout garbage t.disk
              (n / superblock.inodes_per_block)
              (n % superblock.inodes_per_block))
        × ((j : ℕ)
            → j < superblock.inodes_per_block
            → j ≢ n % superblock.inodes_per_block
            → IsStored
                (table_get drive superblock layout garbage s.disk
                  (n / superblock.inodes_per_block)
                  j)
                (table_get drive superblock layout garbage t.disk
                  (n / superblock.inodes_per_block)
                  j))
  unfolding table_get
  table_get-entry_flush s slot back is whole inside fits_struct dirty =
      let e = s.cache slot in
      let inodes = superblock.inodes_per_block in
      let sector = table_sector drive superblock layout garbage (e.index / inodes) in
      let old = drive.read s.disk sector garbage (u8 superblock.block_sector_count) in
      let i = e.index % inodes in
      let fits : i < inodes = mod-lt e.index whole.room in
      let new = layout.put old i e.inode in
      let count : u8 superblock.block_sector_count ≡ superblock.block_sector_count =
        omega (arith, whole.few) in
      let there =
        drive.read (drive.write s.disk sector new superblock.bytes_per_block) sector garbage
          (u8 superblock.block_sector_count) in
      let old_words : AreWords old (superblock.block_sector_count * 64) =
        subst
          (λ c. AreWords (drive.read s.disk sector garbage c) (superblock.block_sector_count * 64))
          (sym count)
          (back.read_words s.disk sector garbage superblock.block_sector_count whole.few) in
      let new_words = is.put_words old i e.inode fits fits_struct old_words in
      let same : (w : ℕ) → w < superblock.block_sector_count * 64 → there w ≡ new w = λ w h.
        ap
          (λ c.
            drive.read (drive.write s.disk sector new superblock.bytes_per_block) sector garbage c
              w)
          count
        ∙ ap
            (λ c.
              drive.read (drive.write s.disk sector new c) sector garbage
                superblock.block_sector_count w)
            whole.bytes
        ∙ back.same s.disk sector new garbage superblock.block_sector_count w whole.few new_words
            h in
      (
        record (set_entry s slot (record e { dirty = false })) {
          disk = drive.write s.disk sector new superblock.bytes_per_block;
        },
        entry_flush_lem drive superblock layout garbage s slot inside
            ∙ ap (λ (t : State S). some t) (if_true _ dirty),
        ap (λ (f : CacheEntry). f.dirty) (set_entry_self s slot (record e { dirty = false })),
        IsStored-trans e.inode (layout.get new i) (layout.get there i)
            (is.replaced old i e.inode fits fits_struct) (is.local new there i fits same),
        λ j hj ne.
            IsStored-trans (layout.get old j) (layout.get new j) (layout.get there j)
              (is.others old i j e.inode fits hj ne) (is.local new there j hj same),
      )
