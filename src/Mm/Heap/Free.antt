-- ===== src/Mm/Heap/Free.antt =====
-- os/mm/heap.c: `heap_free`, `heap_init`, and `heap_alloc` where no block is left.
use hrishikos.Base.{
  ℕ, zero, suc, ◌+◌, ◌-◌, ◌%◌, ◌^◌, ◌≤◌, ◌<◌, ◌≡◌, ◌≢◌, refl, arith, ◌==◌, ltb, true, false, ◌||◌,
  none, some, ap, sym, subst, List, [], ◌∷◌, length, ==_ne, lt→ltb, bit_xor, sub64,
}
use hrishikos.Base.Bits.{bit_xor_odd}
use native.Mathlib.Nat.{pow-suc, pow-le-pow_right}
use native.Mathlib.Decide.{dec_le}
use hrishikos.Mm.Heap.{
  Heap, max_order, add_block, list_has, list_fuel, word_at, merge_loop, free, order_to_size, alloc,
  free_order, heap_start, init, init_order, init_orders, size_to_order,
}
use hrishikos.Mm.Heap.Chain.{IsChain, IsList, NotIn, add_block-front, add_block-other}
use hrishikos.Mm.Heap.Orders.{free_order-none, size_to_order-IsLeastOrder}

-- Every block of a list starts on a page.
abbrev pub AllPages : List ℕ → Type 0
AllPages [] = Unit {0}
AllPages (x ∷ xs) = (x % 4096 ≡ 0) × AllPages xs

list_has-odd :
    (fuel : ℕ) (h : Heap) (p buddy : ℕ) (xs : List ℕ)
    → length xs < fuel
    → IsChain h.vm.memory p xs
    → AllPages xs
    → buddy % 2 ≡ 1
    → list_has fuel h p buddy ≡ some false
unfolding list_has
list_has-odd zero h p buddy xs enough c pages odd = absurd (omega arith)
list_has-odd (suc fuel) h p buddy [] enough e pages odd = rw e
list_has-odd (suc fuel) h p buddy (x ∷ xs) enough (e, pos, c) (page, pages) odd =
    rw (e, ==_ne x 0 pos, ==_ne x buddy (λ q. absurd (omega (arith, ap (λ (t : ℕ). t % 2) q))))
      (list_has-odd fuel h (word_at h x) buddy xs (omega arith) c pages odd)

order_to_size-even : (o : ℕ) → order_to_size o % 2 ≡ 0
unfolding order_to_size
order_to_size-even o =
    let step : o + 12 ≡ suc (o + 11) = omega arith in rw step (omega (arith, pow-suc 2 (o + 11)))

no_merge :
    (left : ℕ) (h : Heap) (order block : ℕ)
    → list_has list_fuel h (h.free_list order) (bit_xor block (order_to_size order)) ≡ some false
    → merge_loop (suc left) h order block ≡ some h
unfolding merge_loop
no_merge left h order block miss = rw miss

-- `heap_free` of a pointer one byte past a page, not page 0, whose header holds an order up to 12,
-- only puts the block in front of the free list of its order, where that list is well linked, has
-- fewer than 4096 blocks, all of them pages, and not the block itself: whichever pages it holds, the
-- buddy among them, nothing is merged, since the address that is searched for is odd.
pub free_never_merges :
    (h : Heap) (start : ℕ) (xs : List ℕ)
    → let order = word_at h start % 256 in
      start % 4096 ≡ 0
      → start ≢ 0
      → start + 1 < 2 ^ 64
      → order ≤ 12
      → IsList h order xs
      → NotIn start xs
      → AllPages xs
      → length xs < 4096
      → free h (start + 1) ≡ some (add_block h order start)
unfolding free
free_never_merges h start xs page pos small low c out pages short =
    let order = word_at h start % 256 in
    let back : sub64 (start + 1) 1 ≡ start = omega arith in
    let left : max_order + 1 - order ≡ suc (12 - order) = omega arith in
    let freed = add_block h order start in
    let odd =
      bit_xor_odd (start + 1) (order_to_size order) (omega arith) (order_to_size-even order) in
    rw (==_ne (start + 1) 0 (omega arith), back, left)
      (no_merge (12 - order) freed order (start + 1) (
        list_has-odd list_fuel freed (freed.free_list order)
          (bit_xor (start + 1) (order_to_size order)) (start ∷ xs) (omega arith)
          (add_block-front h order start xs low pos out c) (page, pages) odd))

-- With every free list empty, `heap_alloc` of any size that it does not refuse at once reads past
-- the end of the array of lists.
pub alloc_exhausted :
    (h : Heap) (size : ℕ)
    → ((k : ℕ) → k ≤ 12 → h.free_list k ≡ 0)
    → 0 < size
    → size ≤ 2 ^ 24
    → alloc h size ≡ none
unfolding alloc order_to_size
alloc_exhausted h size empty pos small =
    let fits : (size == 0 || ltb (2 ^ 24) size) ≡ false = ground arith in
    let past : ltb max_order (free_order 14 h (size_to_order size)) ≡ true =
      lt→ltb _ _ (free_order-none 14 h (size_to_order size) empty (omega arith)) in
    rw (fits, past)

-- `heap_alloc` of either of the two largest sizes that it lets through, 2 ^ 24 - 1 and 2 ^ 24, reads
-- past the end of the array of lists, whatever the lists hold.
pub alloc_largest : (h : Heap) (size : ℕ) → 2 ^ 24 - 1 ≤ size → size ≤ 2 ^ 24 → alloc h size ≡ none
unfolding alloc order_to_size
alloc_largest h size large small =
    let fits : (size == 0 || ltb (2 ^ 24) size) ≡ false = ground arith in
    let past : ltb max_order (free_order 14 h (size_to_order size)) ≡ true =
      rw top (unfold free_order in refl) in
    rw (fits, past)
  where
    top : size_to_order size ≡ 13
    top =
        let (_, below, enough, _) = size_to_order-IsLeastOrder size (omega arith) in
        elim (dec_le (size_to_order size) 12) [
          | yes low ↦ absurd (
              omega (
                arith,
                enough,
                pow-le-pow_right {n = 2} (omega arith) {i = size_to_order size + 12} {j = 24}
                    (omega arith),
              ))
          | no high ↦ omega arith
        ]

init_one_block : (h : Heap) → init h ≡ add_block h 12 heap_start
unfolding init init_orders init_order order_to_size
init_one_block h = refl

-- From empty lists `heap_init` leaves one free block, the whole heap, in the list of order 12, and
-- the other lists empty.
pub init_lists :
    (h : Heap) (k : ℕ)
    → ((o : ℕ) → h.free_list o ≡ 0)
    → k ≢ 12
    → IsList (init h) 12 (heap_start ∷ []) × IsList (init h) k []
init_lists h k empty ne =
    subst (λ g. IsList g 12 (heap_start ∷ []) × IsList g k []) (sym (init_one_block h))
      (
        add_block-front h 12 heap_start [] (omega arith) (omega arith) tt (empty 12),
        add_block-other h 12 heap_start k [] (omega arith) tt ne (empty k),
      )
