-- ===== src/Mm/Vmm/Tests.antt =====
-- os/mm/vmm.c at concrete inputs.
use hrishikos.Base.{◌^◌, ◌<◌, ◌≡◌, refl, arith, true, false, some, update}
use hrishikos.Mm.Vmm.{
  Vmm, pte_get_frame, pte_is_present, present_entry, physical_to_virtual, map_page, unmap_page,
}
use hrishikos.Mm.Vmm.Walk.{
  IsWalk, IsSeparate, leaf, translate, map_page_translates, OnlyFrees, unmap_page_keeps,
}

-- Three tables, at 0x1000, 0x2000 and 0x3000, lead from the PML4 at 0x1000 to a page table at
-- 0x4000.
abbrev tables : Vmm
tables = record {
  init_mode = false;
  cr3 = 0x1000;
  memory = update (update (update (λ _. 0) 0x1000 0x2003) 0x2000 0x3003) 0x3000 0x4003;
  pmm = record {
    init_mode = false;
    memory_size = 0x40000;
    used_blocks = 3;
    max_blocks = 64;
    memory_map = update (λ _. 0) 0 7;
  };
}

walk : IsWalk tables 0x1000 0x5000 0x2003 0x3003 0x4003
unfolding present_entry pte_is_present physical_to_virtual pte_get_frame
walk = record { third = refl; second = refl; first = refl }

walk-leaf : leaf walk ≡ 0x4028
unfolding physical_to_virtual pte_get_frame
walk-leaf = refl

walk-IsSeparate : IsSeparate walk
unfolding physical_to_virtual pte_get_frame
walk-IsSeparate = (omega arith, omega arith, omega arith)

walk-leaf_small : tables.memory (leaf walk) < 2 ^ 64
walk-leaf_small = rw walk-leaf (omega arith)

map_page_translates_example :
    ((map_page tables 0x9000 0x5000 0x1000).0 ≡ true)
    × (translate (map_page tables 0x9000 0x5000 0x1000).1 0x1000 0x5000
        ≡ some (pte_get_frame 0x9000))
    × ((map_page tables 0x9000 0x5000 0x1000).1.pmm ≡ tables.pmm)
    × ((map_page tables 0x9000 0x5000 0x1000).1.memory
        ≡ update tables.memory
            (leaf walk)
            ((map_page tables 0x9000 0x5000 0x1000).1.memory (leaf walk)))
map_page_translates_example =
    map_page_translates 0x9000 walk walk-IsSeparate walk-leaf_small (omega arith)

unmap_page_keeps_example :
    OnlyFrees
      (map_page tables 0x9000 0x5000 0x1000).1
      (unmap_page (map_page tables 0x9000 0x5000 0x1000).1 0x5000 0x1000)
    × ((unmap_page (map_page tables 0x9000 0x5000 0x1000).1 0x5000 0x1000).1.memory
        ≡ (map_page tables 0x9000 0x5000 0x1000).1.memory)
    × (translate (unmap_page (map_page tables 0x9000 0x5000 0x1000).1 0x5000 0x1000).1 0x1000 0x5000
        ≡ translate (map_page tables 0x9000 0x5000 0x1000).1 0x1000 0x5000)
unmap_page_keeps_example =
    unmap_page_keeps (map_page tables 0x9000 0x5000 0x1000).1 0x5000 0x1000 0x1000 0x5000
