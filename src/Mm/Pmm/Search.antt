-- ===== src/Mm/Pmm/Search.antt =====
-- os/mm/pmm.c: the searches of the memory map find the first free block.
use hrishikos.Base.{
  ℕ, zero, suc, ◌+◌, ◌*◌, ◌/◌, ◌%◌, ◌^◌, ◌≤◌, ◌<◌, ◌≡◌, ◌≢◌, refl, arith, ◌==◌, if◌then◌else◌, inl,
  inr, eq-cases, add32, Option, none, some, Bool-cases, Option-cases, ==_ne, false, u32, minus_one,
}
use hrishikos.Base.Bits.{bit-ones}
use hrishikos.Mm.Pmm.{
  Pmm, memory_map_test, find_in_word, find_in_words, full_word, low_block_count,
  memory_map_find_free_block, memory_map_find_low_free_block, free_pages_from, find_region_in_words,
  memory_map_find_free_region,
}
use hrishikos.Mm.Pmm.Bitmap.{test-bit, test-le_one}

abbrev pub AllUsed : Pmm → ℕ → ℕ → Type 0
AllUsed p lo hi = (b : ℕ) → lo ≤ b → b < hi → memory_map_test p b ≡ 1

-- The result of a search of the blocks from `lo` to `hi`.
abbrev pub FirstFree : Pmm → ℕ → ℕ → Option ℕ → Type 0
FirstFree p lo hi none = AllUsed p lo hi
FirstFree p lo hi (some r) = (lo ≤ r) × (r < hi) × (memory_map_test p r ≡ 0) × AllUsed p lo r

-- An `int` result, -1 for failure.
abbrev pub index : ℕ → Option ℕ
index r = if r == minus_one then none else some r

AllUsed-append : (p : Pmm) (lo mid hi : ℕ) → AllUsed p lo mid → AllUsed p mid hi → AllUsed p lo hi
AllUsed-append p lo mid hi low high b l h = ground (arith, low b, high b)

FirstFree-append :
    (p : Pmm) (lo mid hi : ℕ) (o : Option ℕ)
    → lo ≤ mid
    → AllUsed p lo mid
    → FirstFree p mid hi o
    → FirstFree p lo hi o
FirstFree-append p lo mid hi none le low rest = AllUsed-append p lo mid hi low rest
FirstFree-append p lo mid hi (some r) le low (from, below, free, used) =
    (omega arith, below, free, AllUsed-append p lo mid r low used)

AllUsed-one : (p : Pmm) (b : ℕ) → (memory_map_test p b == 0) ≡ false → AllUsed p b (b + 1)
AllUsed-one p b used c l h =
    let same : c ≡ b = omega arith in rw same (ground (arith, test-le_one p b))

pub find_in_word-FirstFree :
    (p : Pmm) (i left j lo hi : ℕ)
    → i < 2 ^ 27
    → j + left ≡ 32
    → lo ≡ i * 32 + j
    → hi ≡ i * 32 + 32
    → FirstFree p lo hi (find_in_word p i left j)
unfolding find_in_word
find_in_word-FirstFree p i zero j lo hi small e el eh = λ b l h. absurd (omega arith)
find_in_word-FirstFree p i (suc left) j lo hi small e el eh =
    let here : u32 (i * 32 + j) ≡ lo = omega arith in
    elim (Bool-cases (memory_map_test p lo == 0)) [
      | inl free ↦
          rw (here, free) (omega arith, omega arith, ground arith, λ b l h. absurd (omega arith))
      | inr used ↦
          rw (here, used)
            (FirstFree-append p lo (lo + 1) hi (find_in_word p i left (j + 1)) (omega arith)
              (AllUsed-one p lo used)
              (find_in_word-FirstFree p i left (j + 1) (lo + 1) hi small (omega arith) (omega arith)
                eh))
    ]

-- A free block of the word at hand is the result, and else the search goes on.
in_word :
    (p : Pmm) (i lo hi : ℕ) (o : Option ℕ) (rest : ℕ)
    → lo + 32 ≤ hi
    → hi < 2 ^ 32
    → FirstFree p lo (lo + 32) o
    → FirstFree p (lo + 32) hi (index rest)
    → FirstFree p lo hi (index (elim o [ some b ↦ b | none ↦ rest ]))
in_word p i lo hi none rest le small here later =
    FirstFree-append p lo (lo + 32) hi (index rest) (omega arith) here later
in_word p i lo hi (some b) rest le small (from, below, free, used) later =
    rw (==_ne b minus_one (omega arith)) (from, omega arith, free, used)

full-AllUsed :
    (p : Pmm) (i lo hi : ℕ)
    → lo ≡ i * 32
    → hi ≡ i * 32 + 32
    → p.memory_map i ≡ full_word
    → AllUsed p lo hi
full-AllUsed p i lo hi el eh full b l h =
    let word : b / 32 ≡ i = omega arith in
    rw (test-bit p b, word, full) (bit-ones 32 (b % 32) (omega arith))

pub find_in_words-FirstFree :
    (p : Pmm) (left i lo hi : ℕ)
    → i + left < 2 ^ 27
    → lo ≡ i * 32
    → hi ≡ (i + left) * 32
    → FirstFree p lo hi (index (find_in_words p left i))
unfolding find_in_words
find_in_words-FirstFree p zero i lo hi small el eh = λ b l u. absurd (omega arith)
find_in_words-FirstFree p (suc left) i lo hi small el eh =
    let rest =
      find_in_words-FirstFree p left (i + 1) (lo + 32) hi (omega arith) (omega arith)
        (omega arith) in
    let o = index (find_in_words p left (i + 1)) in
    elim (Bool-cases (p.memory_map i == full_word)) [
      | inl full ↦ rw full (
          FirstFree-append p lo (lo + 32) hi o (omega arith)
            (full-AllUsed p i lo (lo + 32) el (omega arith) (ground arith)) rest)
      | inr open_word ↦ rw open_word (
          in_word p i lo hi (find_in_word p i 32 0) (find_in_words p left (i + 1)) (omega arith)
            (omega arith)
            (find_in_word-FirstFree p i 32 0 lo (lo + 32) (omega arith) (omega arith) (omega arith)
              (omega arith))
            rest)
    ]

-- `pmm_memory_map_find_free_block` returns the lowest free block of the whole words below
-- `pmm_max_blocks`, and -1 only if all of them are used; `pmm_memory_map_find_low_free_block`
-- does so for the first 4096 blocks.
pub find_free_block-FirstFree :
    (p : Pmm)
    → p.max_blocks < 2 ^ 32
    → FirstFree p 0 (p.max_blocks / 32 * 32) (index (memory_map_find_free_block p))
      × FirstFree p 0 4096 (index (memory_map_find_low_free_block p))
unfolding memory_map_find_free_block memory_map_find_low_free_block
find_free_block-FirstFree p h = (
  find_in_words-FirstFree p (p.max_blocks / 32) 0 0 (p.max_blocks / 32 * 32) (omega arith)
      (omega arith) (omega arith),
  find_in_words-FirstFree p low_block_count 0 0 4096 (omega arith) (omega arith) (omega arith),
)

free_pages_from-le : (p : Pmm) (start left j : ℕ) → free_pages_from p start left j ≤ left
unfolding free_pages_from
free_pages_from-le p start zero j = omega arith
free_pages_from-le p start (suc left) j = ground (arith, free_pages_from-le p start left (j + 1))

free_pages_from-free :
    (p : Pmm) (start left j k : ℕ)
    → free_pages_from p start left j ≡ left
    → j ≤ k
    → k < j + left
    → memory_map_test p (add32 start k) ≡ 0
unfolding free_pages_from
free_pages_from-free p start zero j k all l h = absurd (omega arith)
free_pages_from-free p start (suc left) j k all l h =
    ground (arith, eq-cases j k, free_pages_from-free p start left (j + 1) k)

abbrev pub IsFreeRun : Pmm → ℕ → ℕ → Type 0
IsFreeRun p start page_count = (k : ℕ) → k < page_count → memory_map_test p (add32 start k) ≡ 0

find_region_in_words-IsFreeRun :
    (p : Pmm) (page_count left i : ℕ)
    → find_region_in_words p page_count left i ≢ minus_one
    → IsFreeRun p (find_region_in_words p page_count left i) page_count
unfolding find_region_in_words
find_region_in_words-IsFreeRun p page_count zero i hit = absurd (hit refl)
find_region_in_words-IsFreeRun p page_count (suc left) i hit =
    let later = λ (k : ℕ) (h : find_region_in_words p page_count left (i + 1) ≢ minus_one).
      find_region_in_words-IsFreeRun p page_count left (i + 1) h k in
    elim (Option-cases (find_in_word p i 32 0)) [
      | inl none_free ↦ λ k h. ground (arith, later k, none_free)
      | inr (start, found) ↦
          λ k h. ground (arith, later k, found, free_pages_from-free p start page_count 0 k)
    ]

-- A start that `pmm_memory_map_find_free_region` returns begins `page_count` blocks that are all
-- free.
pub find_free_region-IsFreeRun :
    (p : Pmm) (page_count : ℕ)
    → memory_map_find_free_region p page_count ≢ minus_one
    → IsFreeRun p (memory_map_find_free_region p page_count) page_count
unfolding memory_map_find_free_region
find_free_region-IsFreeRun p page_count hit =
    find_region_in_words-IsFreeRun p page_count p.max_blocks 0 hit
