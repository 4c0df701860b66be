-- ===== src/Clib/Bitmap.antt =====
-- os/lib/bitmap.c: a bitmap on the disk, of which one block is cached. A block is a function from the
-- index to the 64-bit word. The transfers, which are commands to the drive, are a parameter: `S` is
-- the state of the drive, and the operations ignore what a transfer returns, as the code does.
pub mod Single
pub mod Find
mod Tests
use hrishikos.Base.{
  ℕ, zero, suc, ◌+◌, ◌-◌, ◌*◌, ◌/◌, ◌%◌, ◌^◌, Bool, true, false, Option, none, some, bit_and,
  bit_or, ◌==◌, ltb, leb, if◌then◌else◌, add64, sub64, mul64, update, u8,
}

abbrev pub sector_size : ℕ
sector_size = 512

abbrev pub failure : ℕ
failure = 2 ^ 64 - 1

-- `read s lba buffer count` is the buffer after `ata_read`, and `write s lba buffer size` the drive
-- after `ata_write`.
pub record Drive (S : Type 0) : Type 0 where
  pub read : S → (lba : ℕ) → (ℕ → ℕ) → (count : ℕ) → ℕ → ℕ
  pub write : S → (lba : ℕ) → (ℕ → ℕ) → (size : ℕ) → S

pub record BitmapDisk : Type 0 where
  pub block : ℕ → ℕ
  pub dirty : Bool
  pub block_index : ℕ
  pub total_bits : ℕ
  pub used_bits : ℕ
  pub start_sector : ℕ
  pub sectors_per_block : ℕ
  pub block_size : ℕ
  pub block_count : ℕ

pub bit_to_block : BitmapDisk → (bit : ℕ) → ℕ
bit_to_block b bit = bit / (b.block_size * 8)

-- `bitmap->block[(bit % (bitmap->block_size * 8)) / 64]` and the mask of the bit in it.
abbrev pub word_of : BitmapDisk → (bit : ℕ) → ℕ
word_of b bit = bit % (b.block_size * 8) / 64

pub holds : BitmapDisk → (bit : ℕ) → Bool
holds b bit = if bit_and (b.block (word_of b bit)) (2 ^ (bit % 64)) == 0 then false else true

-- The words of `init`'s model of the last block, from bit `i` on.
pub clear_bits : (left : ℕ) → (ℕ → ℕ) → (block_size i : ℕ) → ℕ → ℕ
clear_bits zero m block_size i = m
clear_bits (suc left) m block_size i =
    let w = i % (block_size * 8) / 64 in
    clear_bits left (update m w (bit_and (m w) (2 ^ 64 - 1 - 2 ^ (i % 64)))) block_size (i + 1)

pub fill_bits : (left : ℕ) → (ℕ → ℕ) → (block_size i : ℕ) → ℕ → ℕ
fill_bits zero m block_size i = m
fill_bits (suc left) m block_size i =
    let w = i % (block_size * 8) / 64 in
    fill_bits left (update m w (bit_or (m w) (2 ^ (i % 64)))) block_size (i + 1)

-- The loop `while (number) number &= number - 1`, which takes a round for each of the 64 bits that
-- is set.
pub bits_in : (fuel number : ℕ) → ℕ
bits_in zero number = 0
bits_in (suc fuel) number =
    let rest = bits_in fuel (bit_and number (number - 1)) in if number == 0 then 0 else suc rest

pub used_in_words : (left : ℕ) → (ℕ → ℕ) → (i : ℕ) → ℕ
used_in_words zero block i = 0
used_in_words (suc left) block i = bits_in 64 (block i) + used_in_words left block (i + 1)

pub compute_used_bits_block : BitmapDisk → ℕ
compute_used_bits_block b = used_in_words (b.block_size / 8) b.block 0

abbrev pub sector_of : BitmapDisk → (block : ℕ) → ℕ
sector_of b block = add64 b.start_sector (mul64 block b.sectors_per_block)

-- An early `return` of a bit, and else the rest of the loop.
abbrev pub or_search :
    {S : Type 0}
    → Option ℕ × BitmapDisk × S
    → (BitmapDisk → S → Option ℕ × BitmapDisk × S)
    → Option ℕ × BitmapDisk × S
or_search (some bit, b, s) rest = (some bit, b, s)
or_search (none, b, s) rest = rest b s

module _ {S : Type 0} (drive : Drive S) where
  pub flush : BitmapDisk → S → BitmapDisk × S
  flush b s = (
    record b { dirty = false },
    if b.dirty then drive.write s (sector_of b b.block_index) b.block b.block_size else s,
  )

  -- The sector count of a transfer is a `uint8_t`.
  pub load_block : BitmapDisk → S → (block : ℕ) → BitmapDisk × S
  load_block b s block =
      if leb b.block_count block
      then (b, s)
      else let s' =
          (if b.dirty then drive.write s (sector_of b b.block_index) b.block b.block_size else s) in
        (
          record b {
            block = drive.read s' (sector_of b block) b.block (u8 b.sectors_per_block);
            block_index = block;
            dirty = false;
          },
          s',
        )

  pub checked_load_block : BitmapDisk → S → (bit : ℕ) → BitmapDisk × S
  checked_load_block b s bit =
      let block = bit_to_block b bit in
      if b.block_index == block then (b, s) else load_block b s block

  pub set : BitmapDisk → S → (bit : ℕ) → BitmapDisk × S
  set b s bit =
      if leb b.total_bits bit
      then (b, s)
      else if holds b bit
      then (b, s)
      else let (c, s') = checked_load_block b s bit in
        let w = word_of c bit in
        (
          record c {
            block = update c.block w (bit_or (c.block w) (2 ^ (bit % 64)));
            used_bits = add64 c.used_bits 1;
            dirty = true;
          },
          s',
        )

  pub unset : BitmapDisk → S → (bit : ℕ) → BitmapDisk × S
  unset b s bit =
      if leb b.total_bits bit
      then (b, s)
      else if holds b bit
      then (let (c, s') = checked_load_block b s bit in
          let w = word_of c bit in
          (
            record c {
              block = update c.block w (bit_and (c.block w) (2 ^ 64 - 1 - 2 ^ (bit % 64)));
              used_bits = sub64 c.used_bits 1;
              dirty = true;
            },
            s',
          ))
      else (b, s)

  -- True for a free bit.
  pub test : BitmapDisk → S → (bit : ℕ) → Bool × BitmapDisk × S
  test b s bit =
      if leb b.total_bits bit
      then (false, b, s)
      else let (c, s') = checked_load_block b s bit in (if holds c bit then false else true, c, s')

  -- The inner loop of `find_free_bit`, at `bit` with `left` rounds to go.
  pub find_in_word : (left : ℕ) → BitmapDisk → S → (bit : ℕ) → Option ℕ × BitmapDisk × S
  find_in_word zero b s bit = (none, b, s)
  find_in_word (suc left) b s bit =
      let (is_free, c, s') = test b s bit in
      let rest = find_in_word left c s' (add64 bit 1) in if is_free then (some bit, c, s') else rest

  -- The loop over the words of the block, at word `j`.
  pub find_in_block : (left : ℕ) → BitmapDisk → S → (current j : ℕ) → Option ℕ × BitmapDisk × S
  find_in_block zero b s current j = (none, b, s)
  find_in_block (suc left) b s current j =
      let skipped = find_in_block left b s current (j + 1) in
      let first = add64 (mul64 (mul64 current b.block_size) 8) (mul64 j 64) in
      if b.block j == 2 ^ 64 - 1
      then skipped
      else or_search (find_in_word 64 b s first) λ c s'. find_in_block left c s' current (j + 1)

  -- The outer loop, at block `current`.
  pub find_in_blocks : (left : ℕ) → BitmapDisk → S → (current : ℕ) → Option ℕ × BitmapDisk × S
  find_in_blocks zero b s current = (none, b, s)
  find_in_blocks (suc left) b s current =
      or_search (find_in_block (b.block_size / 8) b s current 0) λ c s'.
        let next =
          (if leb c.block_count (add64 current 1)
            then sub64 (add64 current 1) c.block_count
            else add64 current 1) in
        let loaded = load_block c s' next in find_in_blocks left loaded.0 loaded.1 next

  pub find_free_bit : BitmapDisk → S → ℕ × BitmapDisk × S
  find_free_bit b s =
      if leb b.total_bits b.used_bits
      then (failure, b, s)
      else let found = find_in_blocks b.block_count b s b.block_index in
        (elim found.0 [ some bit ↦ bit | none ↦ failure ], found.1, found.2)

  -- The loops of `compute_used_bits`, from block `i` on.
  pub used_in_blocks : (left : ℕ) → BitmapDisk → S → (i used : ℕ) → ℕ × BitmapDisk × S
  used_in_blocks zero b s i used = (used, b, s)
  used_in_blocks (suc left) b s i used =
      let (c, s') = load_block b s i in
      used_in_blocks left c s' (i + 1) (add64 used (compute_used_bits_block c))

  pub compute_used_bits : BitmapDisk → S → ℕ × BitmapDisk × S
  compute_used_bits b s =
      let loaded = b.block_index in
      let (below, c, s') = used_in_blocks loaded b s 0 (compute_used_bits_block b) in
      used_in_blocks (c.block_count - (loaded + 1)) c s' (loaded + 1) below

  -- The loop of `init` that writes the empty blocks, from sector `i` on.
  pub write_empty : (left : ℕ) → S → (start i block_size : ℕ) → S
  write_empty zero s start i block_size = s
  write_empty (suc left) s start i block_size =
      write_empty left (drive.write s (add64 start i) (λ _. 0) block_size) start (i + 1) block_size

  pub init : BitmapDisk → S → (start_sector sectors_per_block size : ℕ) → BitmapDisk × S
  init b s start_sector sectors_per_block size =
      let block_size = mul64 sectors_per_block sector_size in
      let block_count = sub64 (add64 (size / 8) block_size) 1 / block_size in
      let emptied =
        write_empty (sub64 (mul64 block_count sectors_per_block) 1) s start_sector 0 block_size in
      let extra = sub64 size (mul64 (mul64 (sub64 block_count 1) block_size) 8) in
      let cleared = clear_bits extra (λ _. 0) block_size 0 in
      let last = fill_bits (block_size * 8 - extra) cleared block_size extra in
      (
        record b {
          total_bits = size;
          used_bits = 0;
          start_sector = start_sector;
          sectors_per_block = sectors_per_block;
          block_size = block_size;
          block_count = block_count;
        },
        drive.write emptied (add64 start_sector (mul64 (sub64 block_count 1) sectors_per_block))
            last block_size,
      )

  -- `fresh` is what stands in the memory that `malloc` returns.
  pub load :
      BitmapDisk → S → (ℕ → ℕ) → Bool → (start_sector sectors_per_block size : ℕ) → BitmapDisk × S
  load b s fresh initialized start_sector sectors_per_block size =
      if initialized
      then load_block (record b { block = fresh; dirty = false }) s 0
      else let block_size = mul64 sectors_per_block sector_size in
        let b' = record b {
          total_bits = size;
          start_sector = start_sector;
          sectors_per_block = sectors_per_block;
          block_size = block_size;
          block_count = sub64 (add64 (size / 8) block_size) 1 / block_size;
          block = fresh;
          dirty = false;
        } in
        let (c, s') = load_block b' s 0 in
        let (used, d, t) = compute_used_bits c s' in (record d { used_bits = used }, t)
