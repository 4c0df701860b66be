-- ===== src/Mm/Pmm/Alloc.antt =====
-- os/mm/pmm.c: `pmm_alloc_block` and `pmm_free_block`.
use hrishikos.Base.{
  ℕ, ◌*◌, ◌/◌, ◌^◌, ◌≤◌, ◌<◌, ◌≡◌, ◌≢◌, ◌⊎◌, ◌∙◌, ap, refl, arith, ◌==◌, if◌then◌else◌, inl, inr,
  some, Bool, true, false, Bool-cases, u32, add32, sub32, minus_one,
}
use hrishikos.Mm.Pmm.{
  Pmm, memory_map_set, memory_map_unset, memory_map_test, memory_map_find_free_block,
  memory_map_find_low_free_block, frame_address, alloc_block, free_block,
}
use hrishikos.Mm.Pmm.Bitmap.{test-set, test-unset}
use hrishikos.Mm.Pmm.Search.{AllUsed, FirstFree, index, find_free_block-FirstFree}

-- The end of the blocks that the search of the present mode looks at.
abbrev pub search_end : Pmm → ℕ
search_end p = if p.init_mode then 4096 else p.max_blocks / 32 * 32

abbrev pub search : Pmm → ℕ
search p = if p.init_mode then memory_map_find_low_free_block p else memory_map_find_free_block p

search-FirstFree :
    (p : Pmm) → p.max_blocks < 2 ^ 32 → FirstFree p 0 (search_end p) (index (search p))
search-FirstFree p h = by_mode p.init_mode
  where
    found :
        FirstFree p 0 (p.max_blocks / 32 * 32) (index (memory_map_find_free_block p))
        × FirstFree p 0 4096 (index (memory_map_find_low_free_block p))
    found = find_free_block-FirstFree p h

    by_mode :
        (m : Bool)
        → FirstFree p 0
            (if m then 4096 else p.max_blocks / 32 * 32)
            (index (if m then memory_map_find_low_free_block p else memory_map_find_free_block p))
    by_mode true = found.1
    by_mode false = found.0

-- Block `r` goes from free to used, and nothing else changes but the count.
pub record IsAllocated (p : Pmm) (r a : ℕ) (q : Pmm) : Type 0 where
  pub first : FirstFree p 0 (search_end p) (some r)
  pub address : a ≡ r * 4096
  pub marks : (c : ℕ) → memory_map_test q c ≡ (if r == c then 1 else memory_map_test p c)
  pub count : q.used_blocks ≡ add32 p.used_blocks 1
  pub same_max : q.max_blocks ≡ p.max_blocks

frame_address-eq : (r : ℕ) → r < 2 ^ 19 → frame_address r ≡ r * 4096
unfolding frame_address
frame_address-eq r h = ground arith

abbrev marked : Pmm → ℕ → Pmm
marked p r = let q = memory_map_set p r in record q { used_blocks = add32 q.used_blocks 1 }

marked-IsAllocated :
    (p : Pmm) (r : ℕ)
    → p.max_blocks ≤ 2 ^ 19
    → FirstFree p 0 (search_end p) (some r)
    → IsAllocated p r (frame_address r) (marked p r)
marked-IsAllocated p r small (from, below, free, used) = record {
  first = (from, below, free, used);
  address = frame_address-eq r (ground (arith, below));
  marks = λ c. marks_of c;
  count = unfold memory_map_set in refl;
  same_max = unfold memory_map_set in refl;
}
  where
    marks_of :
        (c : ℕ) → memory_map_test (marked p r) c ≡ (if r == c then 1 else memory_map_test p c)
    marks_of c = test_ignores_count c ∙ test-set p r c
      where
        test_ignores_count :
            (c : ℕ) → memory_map_test (marked p r) c ≡ memory_map_test (memory_map_set p r) c
        test_ignores_count c = unfold memory_map_test in refl

alloc_block_full :
    (p : Pmm) → (sub32 p.max_blocks p.used_blocks == 0) ≡ true → alloc_block p ≡ (0, p)
unfolding alloc_block
alloc_block_full p full = rw full

alloc_block_failed :
    (p : Pmm)
    → (sub32 p.max_blocks p.used_blocks == 0) ≡ false
    → (search p == minus_one) ≡ true
    → alloc_block p ≡ (0, p)
unfolding alloc_block
alloc_block_failed p room miss = rw (room, miss)

alloc_block_found :
    (p : Pmm)
    → (sub32 p.max_blocks p.used_blocks == 0) ≡ false
    → (search p == minus_one) ≡ false
    → alloc_block p ≡ (frame_address (search p), marked p (search p))
unfolding alloc_block
alloc_block_found p room hit = rw (room, hit)

-- With at most 2 GiB of memory, `pmm_alloc_block` either takes the lowest free block of the range
-- that its mode searches, marks it and no other block as used, counts it, and returns its address;
-- or it returns NULL and changes nothing, when `pmm_used_blocks` has reached `pmm_max_blocks` or
-- when every block of that range is used.
pub alloc_block_lem :
    (p : Pmm)
    → p.max_blocks ≤ 2 ^ 19
    → p.used_blocks < 2 ^ 32
    → ((r : ℕ) × IsAllocated p r (alloc_block p).0 (alloc_block p).1)
      ⊎ ((alloc_block p ≡ (0, p)) × ((p.used_blocks ≡ p.max_blocks) ⊎ AllUsed p 0 (search_end p)))
alloc_block_lem p small fits = elim (Bool-cases (sub32 p.max_blocks p.used_blocks == 0)) [
  | inl full ↦ inr (alloc_block_full p full, inl (ground arith))
  | inr room ↦ elim (Bool-cases (search p == minus_one)) [
    | inl miss ↦ inr (alloc_block_failed p room miss, inr (rw miss at found))
    | inr hit ↦ inl (
      search p,
      rw (alloc_block_found p room hit) (marked-IsAllocated p (search p) small (rw hit at found)),
    )
  ]
]
  where
    found : FirstFree p 0 (search_end p) (index (search p))
    found = search-FirstFree p (omega arith)

free_allocated :
    {p q : Pmm} {r a : ℕ} (c : ℕ)
    → p.max_blocks ≤ 2 ^ 19
    → p.used_blocks < 2 ^ 32
    → IsAllocated p r a q
    → (memory_map_test (free_block q a) c ≡ memory_map_test p c)
      × ((free_block q a).used_blocks ≡ p.used_blocks)
free_allocated {p} {q} {r} {a} c small fits h =
    (marks_back, unfold free_block memory_map_unset in ground (arith, h.count))
  where
    frame : u32 (a / 4096) ≡ r
    frame = ground (arith, h.address, h.first.1)

    unmarked :
        memory_map_test (free_block q a) c ≡ memory_map_test (memory_map_unset q (u32 (a / 4096))) c
    unmarked = unfold free_block memory_map_test in refl

    marks_back : memory_map_test (free_block q a) c ≡ memory_map_test p c
    marks_back =
        unmarked
        ∙ ap (λ k. memory_map_test (memory_map_unset q k) c) frame
        ∙ test-unset q r c
        ∙ ground (arith, h.marks c, h.first.2)

alloc_block-IsAllocated :
    (p : Pmm)
    → p.max_blocks ≤ 2 ^ 19
    → p.used_blocks < 2 ^ 32
    → (alloc_block p).0 ≢ 0
    → (r : ℕ) × IsAllocated p r (alloc_block p).0 (alloc_block p).1
alloc_block-IsAllocated p small fits ne = elim (alloc_block_lem p small fits) [
  | inl got ↦ got
  | inr (none_left, _) ↦ absurd (ne (ap (λ (t : ℕ × Pmm). t.0) none_left))
]

-- With at most 2 GiB of memory, two calls of `pmm_alloc_block` in a row that both succeed return
-- different addresses.
pub alloc_block_twice :
    (p : Pmm)
    → p.max_blocks ≤ 2 ^ 19
    → p.used_blocks < 2 ^ 32
    → (alloc_block p).0 ≢ 0
    → (alloc_block (alloc_block p).1).0 ≢ 0
    → (alloc_block p).0 ≢ (alloc_block (alloc_block p).1).0
alloc_block_twice p small fits one two same =
    let (r, first) = alloc_block-IsAllocated p small fits one in
    let q = (alloc_block p).1 in
    let (t, second) =
      alloc_block-IsAllocated q (ground (arith, first.same_max)) (ground (arith, first.count))
        two in
    ground (arith, first.marks t, second.first.2, first.address, second.address)

-- With at most 2 GiB of memory, `pmm_free_block` of the block that a successful `pmm_alloc_block`
-- has just returned gives back the mark of every block and the count of used blocks.
pub free_block-alloc_block :
    (p : Pmm) (c : ℕ)
    → p.max_blocks ≤ 2 ^ 19
    → p.used_blocks < 2 ^ 32
    → (alloc_block p).0 ≢ 0
    → let (a, q) = alloc_block p in
      (memory_map_test (free_block q a) c ≡ memory_map_test p c)
      × ((free_block q a).used_blocks ≡ p.used_blocks)
free_block-alloc_block p c small fits ne =
    let (r, h) = alloc_block-IsAllocated p small fits ne in free_allocated c small fits h
