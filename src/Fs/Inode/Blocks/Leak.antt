-- ===== src/Fs/Inode/Blocks/Leak.antt =====
-- os/fs/fs_inode.c: `fs_inode_free_blocks`.
use hrishikos.Base.{
  ℕ, zero, suc, ◌+◌, ◌-◌, ◌^◌, ◌≤◌, ◌<◌, ◌≡◌, refl, arith, ap, subst, ◌∙◌, true, false, ◌||◌, some,
  ◌==◌, ltb, leb, add64, if_true, if_false,
}
use hrishikos.Clib.Bitmap.{Drive, failure}
use hrishikos.Fs.Superblock.{Superblock}
use hrishikos.Fs.Data.{free_data_block}
use hrishikos.Fs.Data.Alloc.{free_data_block_out}
use hrishikos.Fs.Inode.{CacheEntry, State, set_entry}
use hrishikos.Fs.Inode.Blocks.{get_block, set_block, free_loop, free_blocks, third_cutoff}
use hrishikos.Fs.Inode.Cache.{entry_at_lem, set_entry_self}

-- What the code believes the blocks and the file to be.
abbrev emptied : CacheEntry → (left : ℕ) → CacheEntry
emptied e left = record e {
  inode = record e.inode { block_count = left };
  reference = 1;
  dirty = true;
}

module _ {S : Type 0} (drive : Drive S) (superblock : Superblock) (garbage : ℕ → ℕ) where
  get_block_past :
      (s : State S) (slot index : ℕ)
      → slot < 128
      → (s.cache slot).inode.block_count ≤ index
      → get_block drive superblock garbage s slot index ≡ some (failure, s)
  unfolding get_block
  get_block_past s slot index inside past =
      let over : (leb (s.cache slot).inode.block_count index || leb third_cutoff index) ≡ true =
        ground (arith, past) in
      rw (entry_at_lem s slot inside) (if_true _ over)

  set_block_refused :
      (s : State S) (slot index : ℕ)
      → slot < 128
      → superblock.data_blocks_block_count < failure
      → set_block drive superblock garbage s slot index failure ≡ some s
  unfolding set_block
  set_block_refused s slot index inside small =
      let over : (leb third_cutoff index || ltb superblock.data_blocks_block_count failure) ≡ true =
        ground (arith, small) in
      rw (entry_at_lem s slot inside) (if_true _ over)

  free_step :
      (left : ℕ) (s : State S) (slot block_count i : ℕ)
      → get_block drive superblock garbage s slot (add64 block_count i) ≡ some (failure, s)
      → free_data_block drive s.data_bitmap s.disk failure ≡ (s.data_bitmap, s.disk)
      → set_block drive superblock garbage s slot (add64 block_count i) failure ≡ some s
      → free_loop drive superblock garbage (suc left) s slot block_count i
        ≡ free_loop drive superblock garbage left s slot block_count (i + 1)
  unfolding free_loop
  free_step left s slot block_count i got freed set = rw (got, freed, set) refl

  free_end :
      (s : State S) (slot block_count i : ℕ)
      → free_loop drive superblock garbage 0 s slot block_count i ≡ some s
  unfolding free_loop
  free_end s slot block_count i = refl

  free_loop_lem :
      (left : ℕ) (s : State S) (slot i : ℕ)
      → slot < 128
      → superblock.data_blocks_block_count < failure
      → s.data_bitmap.total_bits ≤ failure
      → (s.cache slot).inode.block_count + i + left < 2 ^ 64
      → free_loop drive superblock garbage left s slot (s.cache slot).inode.block_count i ≡ some s
  free_loop_lem zero s slot i inside small total short =
      free_end s slot (s.cache slot).inode.block_count i
  free_loop_lem (suc left) s slot i inside small total short =
      let n = (s.cache slot).inode.block_count in
      free_step left s slot n i (get_block_past s slot (add64 n i) inside (omega (arith, short)))
        (free_data_block_out drive s.data_bitmap s.disk failure total)
        (set_block_refused s slot (add64 n i) inside small)
      ∙ free_loop_lem left s slot (i + 1) inside small total (omega (arith, short))

  free_run :
      (s t : State S) (slot count : ℕ)
      → slot < 128
      → 0 < count
      → count ≤ (s.cache slot).inode.block_count
      → let left = (s.cache slot).inode.block_count - count in
        let shrunk =
          set_entry s slot (record (s.cache slot) {
            inode = record (s.cache slot).inode { block_count = left };
          }) in
        free_loop drive superblock garbage count shrunk slot left 0 ≡ some t
        → free_blocks drive superblock garbage s slot count
          ≡ some (true, set_entry t slot (emptied (t.cache slot) (t.cache slot).inode.block_count))
  unfolding free_blocks
  free_run s t slot count inside some_ most run =
      let more : (count == 0) ≡ false = ground (arith, some_) in
      let enough : ltb (s.cache slot).inode.block_count count ≡ false = ground (arith, most) in
      rw (entry_at_lem s slot inside)
        (if_false _ more ∙ if_false _ enough ∙ rw (run, entry_at_lem t slot inside) refl)

  -- `fs_inode_free_blocks` of blocks that a file has reports success and makes the file shorter, but
  -- it frees none of them: the bitmap of the data blocks, the disk and the inode's own list of
  -- blocks are what they were.
  pub free_blocks_leaks :
      (s : State S) (slot count : ℕ)
      → slot < 128
      → 0 < count
      → count ≤ (s.cache slot).inode.block_count
      → (s.cache slot).inode.block_count < 2 ^ 64
      → superblock.data_blocks_block_count < failure
      → s.data_bitmap.total_bits ≤ failure
      → (t : State S) × (free_blocks drive superblock garbage s slot count ≡ some (true, t))
        × (t.data_bitmap ≡ s.data_bitmap)
        × (t.disk ≡ s.disk)
        × ((t.cache slot).inode.blocks ≡ (s.cache slot).inode.blocks)
        × ((t.cache slot).inode.block_count + count ≡ (s.cache slot).inode.block_count)
  free_blocks_leaks s slot count inside some_ most short small total =
      let left = (s.cache slot).inode.block_count - count in
      let e : CacheEntry = record (s.cache slot) {
        inode = record (s.cache slot).inode { block_count = left };
      } in
      let shrunk = set_entry s slot e in
      let at = set_entry_self s slot e in
      let n : (shrunk.cache slot).inode.block_count ≡ left =
        ap (λ (f : CacheEntry). f.inode.block_count) at in
      let run =
        free_loop_lem count shrunk slot 0 inside small total (omega (arith, n, most, short)) in
      let end = emptied (shrunk.cache slot) (shrunk.cache slot).inode.block_count in
      let last = set_entry_self shrunk slot end in
      (
        set_entry shrunk slot end,
        free_run s shrunk slot count inside some_ most (
            subst (λ k. free_loop drive superblock garbage count shrunk slot k 0 ≡ some shrunk) n
              run),
        refl,
        refl,
        ap (λ (f : CacheEntry). f.inode.blocks) last ∙ ap (λ (f : CacheEntry). f.inode.blocks) at,
        omega (arith, ap (λ (f : CacheEntry). f.inode.block_count) last, n, most),
      )
