-- ===== src/Mm/Pmm.antt =====
-- os/mm/pmm.c: the physical memory manager, a bitmap of 4096-byte blocks kept behind the kernel.
-- The globals are the record `Pmm`; `pmm_memory_map` is a raw pointer, so the map is a function
-- from the word's index to the 32-bit word that stands there, with no end.
pub mod Alloc
pub mod Bitmap
pub mod Init
pub mod Search
mod Tests
use hrishikos.Base.{
  ℕ, zero, suc, ◌+◌, ◌-◌, ◌*◌, ◌/◌, ◌%◌, ◌^◌, min, bit_and, bit_or, Bool, true, false, List, [],
  ◌∷◌, Option, none, some, ◌==◌, ltb, if◌then◌else◌, u32, u64, add32, sub32, add64, minus_one,
  update,
}

abbrev pub block_size : ℕ
block_size = 4096

abbrev pub low_block_count : ℕ
low_block_count = 128

abbrev pub full_word : ℕ
full_word = 0xffff_ffff

pub record Pmm : Type 0 where
  pub init_mode : Bool
  pub memory_size : ℕ
  pub used_blocks : ℕ
  pub max_blocks : ℕ
  pub memory_map : ℕ → ℕ

-- `kind` is the field `type` of the firmware's table; 1 is usable memory.
pub record E820Entry : Type 0 where
  pub base : ℕ
  pub len : ℕ
  pub kind : ℕ

pub memory_map_set : Pmm → ℕ → Pmm
memory_map_set p b =
    let word = b / 32 in
    let mask = 2 ^ (b % 32) in
    record p { memory_map = update p.memory_map word (bit_or (p.memory_map word) mask) }

pub memory_map_unset : Pmm → ℕ → Pmm
memory_map_unset p b =
    let word = b / 32 in
    let mask = 2 ^ (b % 32) in
    record p {
      memory_map = update p.memory_map word (bit_and (p.memory_map word) (2 ^ 32 - 1 - mask));
    }

pub memory_map_test : Pmm → ℕ → ℕ
memory_map_test p b = if bit_and (p.memory_map (b / 32)) (2 ^ (b % 32)) == 0 then 0 else 1

-- The inner loop of the searches at `j`, with `left` rounds to go: the first free bit of word `i`.
pub find_in_word : Pmm → (i left j : ℕ) → Option ℕ
find_in_word p i zero j = none
find_in_word p i (suc left) j =
    let rest = find_in_word p i left (j + 1) in
    let b = u32 (i * 32 + j) in if memory_map_test p b == 0 then some b else rest

-- The outer loop at word `i`, with `left` words to go.
pub find_in_words : Pmm → (left i : ℕ) → ℕ
find_in_words p zero i = minus_one
find_in_words p (suc left) i =
    let rest = find_in_words p left (i + 1) in
    if p.memory_map i == full_word
    then rest
    else elim (find_in_word p i 32 0) [ some b ↦ b | none ↦ rest ]

pub memory_map_find_free_block : Pmm → ℕ
memory_map_find_free_block p = find_in_words p (p.max_blocks / 32) 0

pub memory_map_find_low_free_block : Pmm → ℕ
memory_map_find_low_free_block p = find_in_words p low_block_count 0

-- The count of free pages from `start + j` on, up to the first used one.
pub free_pages_from : Pmm → (start left j : ℕ) → ℕ
free_pages_from p start zero j = 0
free_pages_from p start (suc left) j =
    let rest = free_pages_from p start left (j + 1) in
    if memory_map_test p (add32 start j) == 0 then suc rest else 0

pub find_region_in_words : Pmm → (page_count left i : ℕ) → ℕ
find_region_in_words p page_count zero i = minus_one
find_region_in_words p page_count (suc left) i =
    let rest = find_region_in_words p page_count left (i + 1) in
    if p.memory_map i == full_word then rest else elim (find_in_word p i 32 0) [
      | some start ↦ if free_pages_from p start page_count 0 == page_count then start else rest
      | none ↦ rest
    ]

pub memory_map_find_free_region : Pmm → ℕ → ℕ
memory_map_find_free_region p page_count = find_region_in_words p page_count p.max_blocks 0

-- The `while` loops of `pmm_init_region` and `pmm_deinit_region`, with `blocks` rounds to go.
pub init_region_loop : Pmm → (blocks align : ℕ) → Pmm
init_region_loop p zero align = p
init_region_loop p (suc blocks) align =
    let q = memory_map_unset p align in
    init_region_loop (record q { used_blocks = sub32 q.used_blocks 1 }) blocks (add32 align 1)

pub init_region : Pmm → (base size : ℕ) → Pmm
init_region p base size = init_region_loop p (u32 size / block_size) (u32 (base / block_size))

pub deinit_region_loop : Pmm → (blocks align : ℕ) → Pmm
deinit_region_loop p zero align = p
deinit_region_loop p (suc blocks) align =
    let q = memory_map_set p align in
    deinit_region_loop (record q { used_blocks = add32 q.used_blocks 1 }) blocks (add32 align 1)

pub deinit_region : Pmm → (base size : ℕ) → Pmm
deinit_region p base size = deinit_region_loop p (u32 size / block_size) (u32 (base / block_size))

pub usable_size : List E820Entry → ℕ → ℕ
usable_size [] total = total
usable_size (e ∷ es) total = usable_size es (if e.kind == 1 then add64 total e.len else total)

-- `memset(pmm_memory_map, value, count)` on little-endian words: the bytes of a word that lie
-- below `count` take the value.
pub memset_words : (ℕ → ℕ) → (value count : ℕ) → ℕ → ℕ
memset_words m value count i =
    let cut = 2 ^ (8 * min 4 (count - 4 * i)) in m i / cut * cut + value * 0x0101_0101 % cut

pub init_entries : Pmm → List E820Entry → Pmm
init_entries p [] = p
init_entries p (e ∷ es) = init_entries (if e.kind == 1 then init_region p e.base e.len else p) es

-- The last loop of `pmm_init`, with `left` rounds to go.
pub reserve_low : Pmm → (left i : ℕ) → Pmm
reserve_low p zero i = p
reserve_low p (suc left) i =
    let q = memory_map_set p i in
    reserve_low (record q { used_blocks = add32 q.used_blocks 1 }) left (i + 1)

pub init : Pmm → List E820Entry → Pmm
init p entries =
    let size = u32 (usable_size entries 0) in
    let blocks = size / block_size in
    let cleared = record p {
      memory_size = size;
      used_blocks = blocks;
      max_blocks = blocks;
      memory_map = memset_words p.memory_map 0xf (blocks / 8);
    } in
    reserve_low (memory_map_set (init_entries cleared entries) 0) 2560 0

-- `frame * PMM_BLOCK_SIZE` is a product of two `int`s, widened with its sign to 64 bits.
pub frame_address : ℕ → ℕ
frame_address frame =
    let product = u32 (frame * block_size) in
    if ltb product (2 ^ 31) then product else product + (2 ^ 64 - 2 ^ 32)

-- The address of the block, or 0 for `NULL`.
pub alloc_block : Pmm → ℕ × Pmm
alloc_block p =
    if sub32 p.max_blocks p.used_blocks == 0
    then (0, p)
    else let frame =
        if p.init_mode then memory_map_find_low_free_block p else memory_map_find_free_block p in
      if frame == minus_one
      then (0, p)
      else let q = memory_map_set p frame in
        (frame_address frame, record q { used_blocks = add32 q.used_blocks 1 })

pub free_block : Pmm → ℕ → Pmm
free_block p address =
    let q = memory_map_unset p (u32 (address / block_size)) in
    record q { used_blocks = sub32 q.used_blocks 1 }
