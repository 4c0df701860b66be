-- ===== src/Mm/Pmm/Tests.antt =====
-- os/mm/pmm.c at concrete inputs.
use hrishikos.Base.{ℕ, ◌≡◌, ◌≢◌, ◌⊎◌, refl, arith, false, List, [], ◌∷◌, update, minus_one}
use hrishikos.Mm.Pmm.{
  Pmm, E820Entry, memory_map_test, memory_map_set, memory_map_find_free_block,
  memory_map_find_low_free_block, memory_map_find_free_region, frame_address, alloc_block,
  free_block, find_in_words, find_in_word, find_region_in_words, free_pages_from,
}
use hrishikos.Mm.Pmm.Search.{AllUsed, FirstFree, index, find_free_block-FirstFree}
use hrishikos.Mm.Pmm.Alloc.{
  IsAllocated, search_end, alloc_block_lem, alloc_block_twice, free_block-alloc_block,
}

-- Two words of blocks, of which 0, 1 and 2 are used.
abbrev small : Pmm
small = record {
  init_mode = false;
  memory_size = 0x40000;
  used_blocks = 3;
  max_blocks = 64;
  memory_map = update (λ _. 0) 0 7;
}

find_free_block_example :
    FirstFree small 0 64 (index (memory_map_find_free_block small))
    × FirstFree small 0 4096 (index (memory_map_find_low_free_block small))
find_free_block_example = find_free_block-FirstFree small (omega arith)

found_region : memory_map_find_free_region small 4 ≡ 3
unfolding memory_map_find_free_region find_region_in_words find_in_word free_pages_from
    memory_map_test
found_region = refl

found_region_hit : memory_map_find_free_region small 4 ≢ minus_one
found_region_hit = rw found_region (omega arith)

alloc_block_example :
    ((r : ℕ) × IsAllocated small r (alloc_block small).0 (alloc_block small).1)
    ⊎ ((alloc_block small ≡ (0, small))
        × ((small.used_blocks ≡ small.max_blocks) ⊎ AllUsed small 0 (search_end small)))
alloc_block_example = alloc_block_lem small (omega arith) (omega arith)

alloc_block_first : (alloc_block small).0 ≡ 0x3000
unfolding frame_address alloc_block memory_map_find_free_block find_in_words find_in_word
    memory_map_test
alloc_block_first = refl

alloc_block_second : (alloc_block (alloc_block small).1).0 ≡ 0x4000
unfolding frame_address alloc_block memory_map_find_free_block find_in_words find_in_word
    memory_map_test memory_map_set
alloc_block_second = refl

alloc_block_first_ne : (alloc_block small).0 ≢ 0
alloc_block_first_ne = rw alloc_block_first (omega arith)

alloc_block_second_ne : (alloc_block (alloc_block small).1).0 ≢ 0
alloc_block_second_ne = rw alloc_block_second (omega arith)

alloc_block_twice_example : (alloc_block small).0 ≢ (alloc_block (alloc_block small).1).0
alloc_block_twice_example =
    alloc_block_twice small (omega arith) (omega arith) alloc_block_first_ne alloc_block_second_ne

free_block-alloc_block_example :
    (memory_map_test (free_block (alloc_block small).1 (alloc_block small).0) 3
      ≡ memory_map_test small 3)
    × ((free_block (alloc_block small).1 (alloc_block small).0).used_blocks ≡ 3)
free_block-alloc_block_example =
    free_block-alloc_block small 3 (omega arith) (omega arith) alloc_block_first_ne

abbrev high_memory : List E820Entry
high_memory = record { base = 0xb0_0000; len = 0x100_0000; kind = 1 } ∷ []
