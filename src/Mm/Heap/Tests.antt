-- ===== src/Mm/Heap/Tests.antt =====
-- os/mm/heap.c at concrete inputs.
use hrishikos.Base.{◌≡◌, refl, arith, false, [], ◌∷◌, none, some, update}
use hrishikos.Mm.Heap.{Heap, size_to_order, size_to_order_loop, add_block, del_block, alloc, free}
use hrishikos.Mm.Heap.Orders.{IsLeastOrder, size_to_order-IsLeastOrder}
use hrishikos.Mm.Heap.Chain.{IsList, del_block-IsList}
use hrishikos.Mm.Heap.Free.{free_never_merges, alloc_exhausted}

-- No free block, and no memory but zeros.
abbrev empty : Heap
empty = record {
  free_list = λ _. 0;
  vm = record {
    init_mode = false;
    cr3 = 0x1000;
    memory = λ _. 0;
    pmm = record {
      init_mode = false;
      memory_size = 0x40000;
      used_blocks = 3;
      max_blocks = 64;
      memory_map = λ _. 0;
    };
  };
}

-- The list of order 0 holds the blocks 0x3000, 0x2000 and 0x1000.
abbrev three : Heap
three = record empty {
  free_list = update (λ _. 0) 0 0x3000;
  vm = record (empty.vm) { memory = update (update (λ _. 0) 0x3000 0x2000) 0x2000 0x1000 };
}

three-IsList : IsList three 0 (0x3000 ∷ 0x2000 ∷ 0x1000 ∷ [])
three-IsList = (refl, omega arith, (refl, omega arith, (refl, omega arith, refl)))

page_order : size_to_order 4095 ≡ 1
unfolding size_to_order size_to_order_loop
page_order = refl

size_to_order-IsLeastOrder_example : IsLeastOrder 5000 0 (size_to_order 4999)
size_to_order-IsLeastOrder_example = size_to_order-IsLeastOrder 4999 (omega arith)

del_block-IsList_example :
    (h' : Heap) × (del_block three 0 0x2000 ≡ some h')
    × IsList h' 0 (0x3000 ∷ 0x1000 ∷ [])
    × IsList h' 1 []
del_block-IsList_example =
    del_block-IsList three 0 0x2000 1 (0x3000 ∷ []) (0x1000 ∷ []) [] (omega arith) (omega arith)
      (omega arith) three-IsList ((omega arith, (omega arith, tt)), ((omega arith, tt), (tt, tt)))
      (tt, (tt, (tt, tt))) refl

free_never_merges_example : free three 0x4001 ≡ some (add_block three 0 0x4000)
free_never_merges_example =
    free_never_merges three 0x4000 (0x3000 ∷ 0x2000 ∷ 0x1000 ∷ []) refl (omega arith) (omega arith)
      (omega arith) three-IsList (omega arith, (omega arith, (omega arith, tt)))
      (refl, (refl, (refl, tt))) (omega arith)

alloc_exhausted_example : alloc empty 100 ≡ none
alloc_exhausted_example = alloc_exhausted empty 100 (λ k h. refl) (omega arith) (omega arith)
