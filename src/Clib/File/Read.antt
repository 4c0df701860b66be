-- ===== src/Clib/File/Read.antt =====
-- os/lib/file.c: `file_read` of a file of one block that has just been opened.
use hrishikos.Base.{
  ℕ, zero, suc, ◌%◌, ◌^◌, min, ◌≤◌, ◌<◌, ◌≡◌, refl, arith, ap, sym, subst, ◌∙◌, true, false, some,
  ◌==◌, ltb, update, add64, ap₂, if_true, if_false,
}
use native.Mathlib.Nat.{mod-eq_of_lt}
use hrishikos.Clib.Bitmap.{Drive, failure}
use hrishikos.Fs.Superblock.{Superblock}
use hrishikos.Fs.Data.{read_block, write_block}
use hrishikos.Fs.Inode.{Inode, CacheEntry, State, Layout, set_entry, cache_search, get}
use hrishikos.Fs.Inode.Cache.{entry_at_lem, set_entry_self}
use hrishikos.Fs.Inode.Get.{get_cached}
use hrishikos.Fs.Inode.Blocks.{get_block}
use hrishikos.Fs.Inode.Blocks.Direct.{get_block_direct}
use hrishikos.Clib.File.{File, get_byte, write_back, next_block, read_loop, read_count, file_read}
use hrishikos.Clib.File.Loop.{IsFilled, Fills, read_step, read_end, IsFilled-cons, read_loop-Fills}

-- What `file_open` makes of a file that is open for reading, with the inode of a file of one block.
pub record IsFresh (superblock : Superblock) (file : File) (inode : Inode) : Type 0 where
  pub cursor : file.cursor ≡ 0
  pub block_index : file.block_index ≡ failure
  pub dirty : file.dirty ≡ false
  pub read : file.read ≡ true
  pub one_block : 0 < inode.block_count
  pub fits : inode.size ≤ superblock.bytes_per_block
  pub small : superblock.bytes_per_block < 2 ^ 63

module _ {S : Type 0} (drive : Drive S) (superblock : Superblock) (layout : Layout)
    (garbage : ℕ → ℕ) where
  -- The first block is loaded.
  first_block :
      (s : State S) (file : File) (slot : ℕ)
      → slot < 128
      → IsFresh superblock file (s.cache slot).inode
      → let block_id = (s.cache slot).inode.blocks 0 in
        (loaded : File) × (t : State S) × (next_block drive superblock layout garbage s file slot
          ≡ some (loaded, t))
        × (loaded.block ≡ read_block drive superblock s.disk block_id file.block)
        × (loaded.cursor ≡ 0)
  unfolding next_block write_back
  first_block s file slot inside fresh =
      let block_id = (s.cache slot).inode.blocks 0 in
      let start : (file.cursor % superblock.bytes_per_block == 0) ≡ true =
        ground (arith, ap (λ c. c % superblock.bytes_per_block) fresh.cursor) in
      let index : add64 file.block_index 1 ≡ 0 = omega (arith, fresh.block_index) in
      let t = set_entry s slot (record (s.cache slot) { reference = 1 }) in
      let disk =
        ap (λ d. record s { disk = d })
          (if_false (write_block drive superblock s.disk file.block_id file.block) fresh.dirty) in
      let got =
        ap₂ (λ (u : State S) j. get_block drive superblock garbage u slot j) disk index
        ∙ get_block_direct drive superblock garbage s slot 0 inside (omega arith) fresh.one_block in
      (
        record file {
          block_index = add64 file.block_index 1;
          block_id = block_id;
          block = read_block drive superblock s.disk block_id file.block;
        },
        t,
        if_true _ start ∙ rw got refl,
        refl,
        fresh.cursor,
      )

  read_first :
      (n : ℕ) (s : State S) (file : File) (buffer : ℕ → ℕ) (slot : ℕ)
      → slot < 128
      → IsFresh superblock file (s.cache slot).inode
      → n ≤ superblock.bytes_per_block
      → Fills drive superblock layout garbage
          (read_block drive superblock s.disk ((s.cache slot).inode.blocks 0) file.block)
          0
          0
          n
          buffer
          (read_loop drive superblock layout garbage n s file buffer slot 0)
  read_first zero s file buffer slot inside fresh fits = (
    buffer,
    file,
    s,
    read_end drive superblock layout garbage s file buffer slot 0,
    omega (arith, fresh.cursor),
    λ a. ground arith,
  )
  read_first (suc n) s file buffer slot inside fresh fits =
      let block = read_block drive superblock s.disk ((s.cache slot).inode.blocks 0) file.block in
      let (loaded, t, next, same, start) = first_block s file slot inside fresh in
      let zero_ : loaded.cursor % superblock.bytes_per_block ≡ 0 =
        mod-eq_of_lt {n = loaded.cursor} {m = superblock.bytes_per_block}
          (omega (arith, start, fits))
        ∙ start in
      let byte = get_byte block 0 in
      let (new, after, u, run, end, filled) =
        read_loop-Fills drive superblock layout garbage n t (record loaded { cursor = 1 })
          (update buffer 0 byte) slot 1 1 refl (omega arith) (omega (arith, fits)) fresh.small in
      (
        new,
        after,
        u,
        read_step drive superblock layout garbage n s t file loaded buffer slot 0 byte 1 next
              (ap₂ (λ b c. get_byte b c) same zero_) (omega (arith, start))
            ∙ run,
        omega (arith, end),
        IsFilled-cons drive superblock layout garbage block 0 0 n buffer new
            (subst (λ b. IsFilled b 1 1 n (update buffer 0 byte) new) same filled),
      )

  file_read_run :
      (s t : State S) (file after : File) (u : State S) (buffer new : ℕ → ℕ) (slot count n : ℕ)
      → file.read ≡ true
      → get drive superblock layout garbage s file.inode ≡ some (slot, t)
      → slot < 128
      → ltb (t.cache slot).inode.size file.cursor ≡ false
      → read_count file.cursor (t.cache slot).inode.size count ≡ n
      → read_loop drive superblock layout garbage n t file buffer slot 0 ≡ some (new, after, u)
      → file_read drive superblock layout garbage s file buffer count ≡ some (n, new, after, u)
  unfolding file_read
  file_read_run s t file after u buffer new slot count n opened got inside ahead left run =
      if_true _ opened
      ∙ rw (got, entry_at_lem t slot inside) (if_false _ ahead ∙ rw (left, run) refl)

  -- `file_read` of a file that has just been opened for reading, has at least one block and not more than a
  -- block's bytes, and whose inode is in the cache: it succeeds with as many bytes as were asked for
  -- and the file has, in the buffer stand the first bytes of the file's first block and behind them
  -- what was there, and the cursor is behind the bytes read.
  pub file_read-IsFilled :
      (s : State S) (file : File) (buffer : ℕ → ℕ) (slot count : ℕ)
      → cache_search s file.inode ≡ some slot
      → slot < 128
      → IsFresh superblock file (s.cache slot).inode
      → count < 2 ^ 63
      → let n = min count (s.cache slot).inode.size in
        (new : ℕ → ℕ) × (after : File) × (u : State S) × (file_read drive superblock layout garbage
            s file buffer count
          ≡ some (n, new, after, u))
        × (after.cursor ≡ n)
        × IsFilled
            (read_block drive superblock s.disk ((s.cache slot).inode.blocks 0) file.block)
            0
            0
            n
            buffer
            new
  file_read-IsFilled s file buffer slot count found inside fresh short =
      let e : CacheEntry = record (s.cache slot) { reference = 1 } in
      let t = set_entry s slot e in
      let same = ap (λ (f : CacheEntry). f.inode) (set_entry_self s slot e) in
      let size = ap (λ (x : Inode). x.size) same in
      let n = min count (s.cache slot).inode.size in
      let ahead : ltb (t.cache slot).inode.size file.cursor ≡ false =
        ground (arith, fresh.cursor) in
      let left : read_count file.cursor (t.cache slot).inode.size count ≡ n =
        ground (arith, fresh.cursor, size, short, fresh.fits, fresh.small) in
      let (new, after, u, run, end, filled) =
        read_first n t file buffer slot inside
          (subst (λ x. IsFresh superblock file x) (sym same) fresh) (omega (arith, fresh.fits)) in
      (
        new,
        after,
        u,
        file_read_run s t file after u buffer new slot count n fresh.read
            (get_cached drive superblock layout garbage s file.inode slot found) inside ahead left
            run,
        omega (arith, end),
        subst
            (λ x.
              IsFilled (read_block drive superblock s.disk (x.blocks 0) file.block) 0 0 n buffer
                new)
            same filled,
      )
