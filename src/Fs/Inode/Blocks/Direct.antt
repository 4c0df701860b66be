-- ===== src/Fs/Inode/Blocks/Direct.antt =====
-- os/fs/fs_inode.c: the blocks that stand in the inode itself, and the rounds of an allocation.
use hrishikos.Base.{
  ℕ, suc, ◌+◌, ◌≤◌, ◌<◌, ◌≡◌, refl, arith, ◌∙◌, true, false, ◌||◌, some, ◌==◌, ltb, leb, add64,
  update, if_true, if_false,
}
use hrishikos.Clib.Bitmap.{Drive, failure}
use hrishikos.Fs.Superblock.{Superblock}
use hrishikos.Fs.Data.{alloc_data_block, free_data_block}
use hrishikos.Fs.Inode.{Inode, CacheEntry, State, set_entry}
use hrishikos.Fs.Inode.Blocks.{
  pow_loop, pow, table_cutoff, first_cutoff, second_cutoff, third_cutoff, find_block, get_block,
  set_block, alloc_loop, alloc_blocks,
}
use hrishikos.Fs.Inode.Cache.{entry_at_lem}

third_cutoff_lem : third_cutoff ≡ 266313
unfolding third_cutoff second_cutoff first_cutoff table_cutoff pow pow_loop
third_cutoff_lem = refl

-- An entry with one direct block replaced.
abbrev pub with_block : CacheEntry → (index block : ℕ) → CacheEntry
with_block e index block = record e {
  inode = record e.inode { blocks = update e.inode.blocks index block };
  reference = 1;
  dirty = true;
}

abbrev pub with_count : CacheEntry → (count : ℕ) → CacheEntry
with_count e count = record e {
  inode = record e.inode { block_count = count };
  reference = 1;
  dirty = true;
}

module _ {S : Type 0} (drive : Drive S) (superblock : Superblock) (garbage : ℕ → ℕ) where
  find_block_direct :
      (disk : S) (inode : Inode) (index : ℕ)
      → index < 8
      → find_block drive superblock garbage disk inode index ≡ some (inode.blocks index)
  unfolding find_block table_cutoff
  find_block_direct disk inode index h =
      let low : ltb index 9 ≡ true = ground (arith, h) in
      let direct : ltb index 8 ≡ true = ground (arith, h) in if_true _ low ∙ if_true _ direct

  pub get_block_direct :
      (s : State S) (slot index : ℕ)
      → slot < 128
      → index < 8
      → index < (s.cache slot).inode.block_count
      → get_block drive superblock garbage s slot index
        ≡ some (
          (s.cache slot).inode.blocks index,
          set_entry s slot (record (s.cache slot) { reference = 1 }),
        )
  unfolding get_block
  get_block_direct s slot index inside direct below =
      let past : (leb (s.cache slot).inode.block_count index || leb third_cutoff index) ≡ false =
        ground (arith, below, direct, third_cutoff_lem) in
      rw (entry_at_lem s slot inside)
        (if_false _ past ∙ rw (find_block_direct s.disk (s.cache slot).inode index direct) refl)

  pub set_block_direct :
      (s : State S) (slot index block : ℕ)
      → slot < 128
      → index < 8
      → block ≤ superblock.data_blocks_block_count
      → set_block drive superblock garbage s slot index block
        ≡ some (set_entry s slot (with_block (s.cache slot) index block))
  unfolding set_block table_cutoff
  set_block_direct s slot index block inside direct small =
      let past : (leb third_cutoff index || ltb superblock.data_blocks_block_count block) ≡ false =
        ground (arith, direct, small, third_cutoff_lem) in
      let low : ltb index 9 ≡ true = ground (arith, direct) in
      let room : ltb index 8 ≡ true = ground (arith, direct) in
      rw (entry_at_lem s slot inside) (if_false _ past ∙ if_true _ low ∙ if_true _ room)

  pub alloc_step :
      (left : ℕ) (s t : State S) (slot block_count i : ℕ)
      → let (block, bitmap, disk) = alloc_data_block drive s.data_bitmap s.disk in
        (block == failure) ≡ false
        → set_block drive superblock garbage
            (record s { data_bitmap = bitmap; disk = disk })
            slot
            (add64 block_count i)
            block
          ≡ some t
        → alloc_loop drive superblock garbage (suc left) s slot block_count i
          ≡ alloc_loop drive superblock garbage left t slot block_count (i + 1)
  unfolding alloc_loop
  alloc_step left s t slot n i ok set = if_false _ ok ∙ rw set refl

  pub alloc_end :
      (s : State S) (slot block_count i : ℕ)
      → alloc_loop drive superblock garbage 0 s slot block_count i ≡ some (true, s)
  unfolding alloc_loop
  alloc_end s slot n i = refl

  pub alloc_fail :
      (left : ℕ) (s : State S) (slot block_count i : ℕ)
      → let (block, bitmap, disk) = alloc_data_block drive s.data_bitmap s.disk in
        let (freed, after) = free_data_block drive bitmap disk block in
        (block == failure) ≡ true
        → alloc_loop drive superblock garbage (suc left) s slot block_count i
          ≡ some (false, record s { data_bitmap = freed; disk = after })
  unfolding alloc_loop
  alloc_fail left s slot n i bad = if_true _ bad

  pub alloc_run :
      (s t : State S) (slot : ℕ)
      → slot < 128
      → alloc_loop drive superblock garbage 1 s slot (s.cache slot).inode.block_count 0
        ≡ some (true, t)
      → alloc_blocks drive superblock garbage s slot 1
        ≡ some (
          true,
          set_entry t slot (with_count (t.cache slot) (add64 (t.cache slot).inode.block_count 1)),
        )
  unfolding alloc_blocks
  alloc_run s t slot inside run =
      rw (entry_at_lem s slot inside, run, entry_at_lem t slot inside) refl

  pub alloc_failed :
      (s t : State S) (slot : ℕ)
      → slot < 128
      → alloc_loop drive superblock garbage 1 s slot (s.cache slot).inode.block_count 0
        ≡ some (false, t)
      → alloc_blocks drive superblock garbage s slot 1 ≡ some (false, t)
  unfolding alloc_blocks
  alloc_failed s t slot inside run = rw (entry_at_lem s slot inside, run) refl
