-- ===== src/Mm/Vmm.antt =====
-- os/mm/vmm.c: four-level page tables. The words of memory are a function of the virtual address;
-- a table is its address, and entry `i` of the table stands at `table + 8 * i`. The control
-- register is a field; flushing an entry of the translation buffer changes no word.
pub mod Entry
pub mod Walk
mod Tests
use hrishikos.Base.{
  ℕ, zero, suc, ◌+◌, ◌-◌, ◌*◌, ◌/◌, ◌%◌, ◌^◌, bit_and, bit_or, Bool, true, false, not, ◌&&◌, Option,
  none, some, ◌==◌, ltb, leb, if◌then◌else◌, u64, add64, sub64, update,
}
use hrishikos.Mm.Pmm.{Pmm, alloc_block, free_block}

abbrev pub pte_present : ℕ
pte_present = 0x1

abbrev pub pte_read_write : ℕ
pte_read_write = 0x2

-- The bits of the frame, or of the next table's address, in an entry of any level.
abbrev pub pte_frame : ℕ
pte_frame = 0x000f_ffff_ffff_f000

abbrev pub physmap_offset : ℕ
physmap_offset = 0xffff_8000_0000_0000

abbrev pub identitymap_end : ℕ
identitymap_end = 0x100_0000

abbrev pub physmap_start : ℕ
physmap_start = 0x100_0000

pub record Vmm : Type 0 where
  pub init_mode : Bool
  pub cr3 : ℕ
  pub memory : ℕ → ℕ
  pub pmm : Pmm

pub pte_get_frame : ℕ → ℕ
pte_get_frame entry = bit_and entry pte_frame

pub pte_set_frame : (entry address : ℕ) → ℕ
pte_set_frame entry address =
    bit_or (bit_and entry (2 ^ 64 - 1 - pte_frame)) (bit_and address pte_frame)

pub pte_is_present : ℕ → Bool
pte_is_present entry = not (bit_and entry pte_present == 0)

pub entry_add_flag : (entry flag_mask : ℕ) → ℕ
entry_add_flag entry flag_mask = bit_or entry flag_mask

pub entry_clear_flag : (entry flag_mask : ℕ) → ℕ
entry_clear_flag entry flag_mask = bit_and entry (2 ^ 64 - 1 - flag_mask)

pub physical_to_virtual : Vmm → ℕ → ℕ
physical_to_virtual v physical_address =
    if v.init_mode
    then physical_address
    else if ltb physical_address 0x100_0000
    then physical_address
    else sub64 (add64 physical_address physmap_offset) 0x100_0000

-- `table->entries[i]`
abbrev pub slot : (table i : ℕ) → ℕ
slot table i = table + 8 * i

-- `memset(table, 0, sizeof(page_table_t))`
pub clear_table : (ℕ → ℕ) → (table : ℕ) → ℕ → ℕ
clear_table memory table a = if leb table a && ltb a (table + 4096) then 0 else memory a

pub alloc_page : Vmm → (entry : ℕ) → Bool × ℕ × Vmm
alloc_page v entry =
    let (block, pmm') = alloc_block v.pmm in
    let v' = record v { pmm = pmm' } in
    if block == 0
    then (false, entry, v')
    else (true, entry_add_flag (pte_set_frame entry block) pte_present, v')

pub free_page : Vmm → (entry : ℕ) → Bool × ℕ × Vmm
free_page v entry =
    let address = pte_get_frame entry in
    if address == 0
    then (false, entry, v)
    else (true, 0, record v { pmm = free_block v.pmm address })

-- One of the three upper levels of `vmm_map_page`: the entry, made to point at a cleared new
-- table where it is not present; `none` is the early `return false`.
pub level_entry : Vmm → (table i : ℕ) → Option ℕ × Vmm
level_entry v table i =
    let entry = v.memory (slot table i) in
    if pte_is_present entry
    then (some entry, v)
    else let (block, pmm') = alloc_block v.pmm in
      let v' = record v { pmm = pmm' } in
      if block == 0
      then (none, v')
      else let cleared = clear_table v.memory (physical_to_virtual v block) in
        let entry' =
          entry_add_flag (entry_add_flag (pte_set_frame entry block) pte_present) pte_read_write in
        (some entry', record v' { memory = update cleared (slot table i) entry' })

-- The last level of `vmm_map_page`.
pub map_entry : Vmm → (table i physical_address : ℕ) → Vmm
map_entry v table i physical_address =
    let entry = v.memory (slot table i) in
    let framed = pte_set_frame entry physical_address in
    let entry' =
      if pte_is_present entry
      then framed
      else entry_add_flag (entry_add_flag framed pte_present) pte_read_write in
    record v { memory = update v.memory (slot table i) entry' }

-- The index of level `k` in a virtual address: the page table has level 0, the PML4 level 3.
abbrev pub table_index : (k address : ℕ) → ℕ
table_index k address = address / 2 ^ (12 + 9 * k) % 512

-- The table that an entry of an upper level points at.
abbrev pub next_table : Vmm → ℕ → ℕ
next_table v entry = physical_to_virtual v (pte_get_frame entry)

-- A failed level ends the walk with `false`; else the walk goes on with the entry.
abbrev pub and_then : Option ℕ × Vmm → (ℕ → Vmm → Bool × Vmm) → Bool × Vmm
and_then (none, v) rest = (false, v)
and_then (some entry, v) rest = rest entry v

pub map_page : Vmm → (physical_address virtual_address pml4 : ℕ) → Bool × Vmm
map_page v pa va pml4 = and_then (level_entry v pml4 (table_index 3 va)) λ pml4_entry v1.
    and_then (level_entry v1 (next_table v1 pml4_entry) (table_index 2 va)) λ pdpt_entry v2.
      and_then (level_entry v2 (next_table v2 pdpt_entry) (table_index 1 va))
        λ pd_entry v3. (true, map_entry v3 (next_table v3 pd_entry) (table_index 0 va) pa)

-- The entry at an index, if it is present.
pub present_entry : Vmm → (table i : ℕ) → Option ℕ
present_entry v table i =
    let entry = v.memory (slot table i) in if pte_is_present entry then some entry else none

abbrev pub or_fail : Option ℕ → Vmm → (ℕ → Bool × Vmm) → Bool × Vmm
or_fail none v rest = (false, v)
or_fail (some entry) v rest = rest entry

-- The last step reads the word at index `pt_entry` of the page table and hands a copy of it to
-- `vmm_free_page`, which zeroes the copy.
pub unmap_page : Vmm → (address pml4 : ℕ) → Bool × Vmm
unmap_page v address pml4 = or_fail (present_entry v pml4 (table_index 3 address)) v λ pml4_entry.
    let pdpt = next_table v pml4_entry in
    or_fail (present_entry v pdpt (table_index 2 address)) v λ pdpt_entry.
      let pd = next_table v pdpt_entry in
      or_fail (present_entry v pd (table_index 1 address)) v λ pd_entry.
        let pt = next_table v pd_entry in
        or_fail (present_entry v pt (table_index 0 address)) v λ pt_entry.
          let (freed, copy, v') = free_page v (v.memory (u64 (slot pt pt_entry))) in (freed, v')

-- The mapping loops of `vmm_init`, with `left` pages to go; the result of `vmm_map_page` is not
-- looked at.
pub map_range : Vmm → (left physical_address virtual_address pml4 : ℕ) → Vmm
map_range v zero pa va pml4 = v
map_range v (suc left) pa va pml4 =
    map_range (map_page v pa va pml4).1 left (add64 pa 4096) (add64 va 4096) pml4

-- `none` is the processor halted because no PML4 can be allocated.
pub init : Vmm → Option Vmm
init v =
    let booting = record v { init_mode = true; pmm = record (v.pmm) { init_mode = true } } in
    let (pml4, pmm') = alloc_block booting.pmm in
    if pml4 == 0
    then none
    else let table = physical_to_virtual booting pml4 in
      let cleared = record booting { memory = clear_table booting.memory table; pmm = pmm' } in
      let identity = map_range cleared (identitymap_end / 4096) 0 0 table in
      let rest = (identity.pmm.memory_size + 4095 - physmap_start) / 4096 in
      let physmap = map_range identity rest physmap_start physmap_offset table in
      some (record physmap {
        init_mode = false;
        cr3 = pml4;
        pmm = record (physmap.pmm) { init_mode = false };
      })
