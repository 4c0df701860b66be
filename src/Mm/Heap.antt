-- ===== src/Mm/Heap.antt =====
-- os/mm/heap.c: the buddy allocator. A free block holds the address of the next one in its first
-- word, and an allocated block its order in its first byte: both stand in the words of `Vmm`. The
-- array of list heads is a function of the order. `none` is a read past the array's end, or a list
-- longer than the heap has blocks, as a cyclic one is.
pub mod Orders
pub mod Chain
pub mod Free
mod Tests
use hrishikos.Base.{
  ◌>>=◌, ℕ, zero, suc, ◌+◌, ◌-◌, ◌*◌, ◌/◌, ◌%◌, ◌^◌, bit_xor, Bool, true, false, ◌&&◌, ◌||◌, Option,
  none, some, ◌==◌, ltb, leb, if◌then◌else◌, u8, add64, sub64, update,
}
use hrishikos.Mm.Pmm.{Pmm, alloc_block}
use hrishikos.Mm.Vmm.{Vmm, map_page}

abbrev pub heap_size : ℕ
heap_size = 0x100_0000

abbrev pub heap_start : ℕ
heap_start = 0xffff_8000_0100_0000

abbrev pub max_order : ℕ
max_order = 12

abbrev pub base_block_size : ℕ
base_block_size = 4096

abbrev pub base_block_order : ℕ
base_block_order = 12

pub record Heap : Type 0 where
  pub free_list : ℕ → ℕ
  pub vm : Vmm

abbrev pub word_at : Heap → ℕ → ℕ
word_at h a = h.vm.memory a

abbrev pub with_word : Heap → (a w : ℕ) → Heap
with_word h a w = record h { vm = record (h.vm) { memory = update h.vm.memory a w } }

abbrev pub with_head : Heap → (order head : ℕ) → Heap
with_head h order head = record h { free_list = update h.free_list order head }

-- The loop of `heap_size_to_order`; `order <= HEAP_MAX_ORDER` ends it after 13 rounds.
pub size_to_order_loop : (fuel size order block_size : ℕ) → ℕ
size_to_order_loop zero size order block_size = order
size_to_order_loop (suc fuel) size order block_size =
    let rest = size_to_order_loop fuel size (order + 1) (block_size * 2) in
    if leb block_size size && leb order max_order then rest else order

pub size_to_order : ℕ → ℕ
size_to_order size = size_to_order_loop 14 (add64 size 1) 0 base_block_size

pub order_to_size : ℕ → ℕ
order_to_size order = 2 ^ (order + base_block_order)

pub add_block : Heap → (order block : ℕ) → Heap
add_block h order block =
    if ltb max_order order then h else with_head (with_word h block (h.free_list order)) order block

-- The loop of `heap_del_block`; the index is a `uint8_t`.
pub del_block_loop : (fuel : ℕ) → Heap → (order block current previous list_index : ℕ) → Option Heap
del_block_loop zero h order block current previous list_index = none
del_block_loop (suc fuel) h order block current previous list_index =
    let rest =
      del_block_loop fuel h order block (word_at h current) current (u8 (list_index + 1)) in
    if current == 0
    then some h
    else if block == current
    then some (
        if list_index == 0
        then with_head h order (word_at h block)
        else if word_at h block == 0
        then with_word h previous 0
        else with_word h previous (word_at h current))
    else rest

-- The heap has 4096 blocks of the least size.
abbrev pub list_fuel : ℕ
list_fuel = 4097

pub del_block : Heap → (order block : ℕ) → Option Heap
del_block h order block =
    if ltb max_order order
    then some h
    else del_block_loop list_fuel h order block (h.free_list order) 0 0

-- The loop of `heap_split_block`, with `levels` orders to go down.
pub split_block : (levels : ℕ) → Heap → (target_order block : ℕ) → Option Heap
split_block zero h target_order block = some h
split_block (suc levels) h target_order block = do
  removed ← del_block h (target_order + suc levels) block
  let order = target_order + levels
  let low = add_block removed order block
  split_block levels (add_block low order (add64 block (order_to_size order))) target_order block

-- The loop that maps the pages of a block, from page `i` on; the results are not looked at.
pub map_pages : (left i : ℕ) → Vmm → (block : ℕ) → Vmm
map_pages zero i v block = v
map_pages (suc left) i v block =
    let (frame, pmm') = alloc_block v.pmm in
    let mapped = map_page (record v { pmm = pmm' }) frame (add64 block (i * 4096)) v.cr3 in
    map_pages left (i + 1) mapped.1 block

-- `header->order = order` writes the lowest byte of the block's first word.
pub write_header : Heap → (block order : ℕ) → Heap
write_header h block order = with_word h block (word_at h block - word_at h block % 256 + order)

pub alloc_from_list : Heap → (order : ℕ) → Option (ℕ × Heap)
alloc_from_list h order =
    if ltb max_order order
    then none
    else let block = h.free_list order in
      if block == 0 then some (0, h) else do
        removed ← del_block h order block
        let mapped = map_pages (order_to_size order / 4096) 0 removed.vm block
        some (add64 block 1, write_header (record removed { vm = mapped }) block order)

-- The least order from `order` on with a free block, or 13.
pub free_order : (left : ℕ) → Heap → (order : ℕ) → ℕ
free_order zero h order = order
free_order (suc left) h order =
    let rest = free_order left h (order + 1) in
    if leb order max_order then (if h.free_list order == 0 then rest else order) else order

-- The result is the pointer, 0 for `NULL`. Past the last order the code reads
-- `heap_free_list[13]`, hence `none`.
pub alloc : Heap → (size : ℕ) → Option (ℕ × Heap)
alloc h size =
    if size == 0 || ltb (order_to_size max_order) size
    then some (0, h)
    else let original = size_to_order size in
      let order = free_order 14 h original in
      if ltb max_order order then none else do
        split ← split_block (order - original) h original (h.free_list order)
        alloc_from_list split original

-- The inner loop of `heap_free`: the list from `current` on holds the address `buddy`.
pub list_has : (fuel : ℕ) → Heap → (current buddy : ℕ) → Option Bool
list_has zero h current buddy = none
list_has (suc fuel) h current buddy =
    let rest = list_has fuel h (word_at h current) buddy in
    if current == 0 then some false else if current == buddy then some true else rest

-- The outer loop of `heap_free`, with `left` orders to go; `block` is the pointer that was freed.
pub merge_loop : (left : ℕ) → Heap → (order block : ℕ) → Option Heap
merge_loop zero h order block = some h
merge_loop (suc left) h order block = do
  found ← list_has list_fuel h (h.free_list order) (bit_xor block (order_to_size order))
  let merged = (do
    one ← del_block h order block
    both ← del_block one order (add64 block (order_to_size order))
    merge_loop left (add_block both (order + 1) block) (order + 1) block)
  if found then merged else some h

pub free : Heap → (block : ℕ) → Option Heap
free h block =
    if block == 0
    then some h
    else let start = sub64 block 1 in
      let order = word_at h start % 256 in
      merge_loop (max_order + 1 - order) (add_block h order start) order block

-- `heap_init`: the `while` loop of one order, then the loop over the orders.
pub init_order : (fuel : ℕ) → Heap → (order block_start remaining : ℕ) → Heap × ℕ × ℕ
init_order zero h order block_start remaining = (h, block_start, remaining)
init_order (suc fuel) h order block_start remaining =
    let size = order_to_size order in
    let rest =
      init_order fuel (add_block h order block_start) order (add64 block_start size)
        (remaining - size) in
    if leb size remaining && (block_start % size == 0) then rest else (h, block_start, remaining)

pub init_orders : (fuel : ℕ) → Heap → (order block_start remaining : ℕ) → Heap
init_orders zero h order block_start remaining = h
init_orders (suc fuel) h order block_start remaining =
    let rest =
      (let (h', start', remaining') = init_order list_fuel h order block_start remaining in
        init_orders fuel h' (u8 (order + 255)) start' remaining') in
    if (remaining == 0) || ltb remaining base_block_size then h else rest

pub init : Heap → Heap
init h = init_orders 14 h max_order heap_start heap_size
