-- ===== src/Mm/Heap/Orders.antt =====
-- os/mm/heap.c: the order that `heap_alloc` asks for.
use hrishikos.Base.{
  ℕ, zero, suc, ◌+◌, ◌-◌, ◌*◌, ◌^◌, ◌≤◌, ◌<◌, ◌≡◌, ◌⊎◌, refl, arith, leb, ◌&&◌, Bool-cases, inl,
  inr, eq-cases, false, add64,
}
use native.Mathlib.Nat.{pow-suc}
use hrishikos.Mm.Heap.{Heap, max_order, size_to_order_loop, size_to_order, free_order}

-- What the loop leaves, started at `order`: the least order from there on whose block is larger
-- than `size`, or 13.
abbrev pub IsLeastOrder : (size order result : ℕ) → Type 0
IsLeastOrder size order result =
    (order ≤ result)
    × (result ≤ 13)
    × ((size < 2 ^ (result + 12)) ⊎ (result ≡ 13))
    × ((k : ℕ) → order ≤ k → k < result → 2 ^ (k + 12) ≤ size)

size_to_order_loop-IsLeastOrder :
    (fuel size order block_size : ℕ)
    → order + fuel ≡ 14
    → order ≤ 13
    → block_size ≡ 2 ^ (order + 12)
    → IsLeastOrder size order (size_to_order_loop fuel size order block_size)
unfolding size_to_order_loop
size_to_order_loop-IsLeastOrder zero size order b total small e = absurd (omega arith)
size_to_order_loop-IsLeastOrder (suc fuel) size order b total small e =
    elim (Bool-cases (leb b size && leb order max_order)) [
      | inl more ↦
          let next : b * 2 ≡ 2 ^ (order + 1 + 12) = double in
          let (above, below, enough, least) =
            size_to_order_loop-IsLeastOrder fuel size (order + 1) (b * 2) (omega arith)
              (ground (arith, more)) next in
          rw more (
            omega arith,
            below,
            enough,
            λ k l h. elim (eq-cases order k) [
              | inl here ↦ rw (← here, ← e) (ground (arith, more))
              | inr later ↦ least k (omega arith) h
            ],
          )
      | inr done ↦ rw done (omega arith, omega arith, stop done, λ k l h. absurd (omega arith))
    ]
  where
    double : b * 2 ≡ 2 ^ (order + 1 + 12)
    double =
        let shift : order + 1 + 12 ≡ suc (order + 12) = omega arith in
        rw (shift, e) (omega (arith, pow-suc 2 (order + 12)))

    stop : (leb b size && leb order max_order) ≡ false → (size < 2 ^ (order + 12)) ⊎ (order ≡ 13)
    stop done = rw (← e) (ground arith)

-- For a size that does not wrap, `heap_size_to_order` returns the least order whose block holds
-- the size and the header with a byte to spare, or 13 when no order up to 12 does.
pub size_to_order-IsLeastOrder :
    (size : ℕ) → size < 2 ^ 64 - 1 → IsLeastOrder (size + 1) 0 (size_to_order size)
unfolding size_to_order
size_to_order-IsLeastOrder size h =
    let header : add64 size 1 ≡ size + 1 = omega arith in
    rw header
      (size_to_order_loop-IsLeastOrder 14 (size + 1) 0 4096 (omega arith) (omega arith) refl)

pub free_order-none :
    (left : ℕ) (h : Heap) (order : ℕ)
    → ((k : ℕ) → k ≤ 12 → h.free_list k ≡ 0)
    → 13 ≤ order + left
    → 13 ≤ free_order left h order
unfolding free_order
free_order-none zero h order empty e = omega arith
free_order-none (suc left) h order empty e =
    ground (arith, empty order, free_order-none left h (order + 1) empty)
