-- ===== src/Clib/Bitmap/Find.antt =====
-- os/lib/bitmap.c: `bitmap_disk_find_free_bit` on a bitmap of one block.
use hrishikos.Base.{
  ℕ, zero, suc, ◌+◌, ◌-◌, ◌*◌, ◌/◌, ◌%◌, ◌^◌, ◌≤◌, ◌<◌, ◌≡◌, ◌⊎◌, refl, arith, ap₂, subst, ◌∙◌,
  true, false, ◌==◌, leb, if◌then◌else◌, add64, mul64, inl, inr, Bool-cases, Option, some, none,
}
use hrishikos.Base.Bits.{bit-le_one, bit-ones}
use native.Mathlib.Nat.{zero-mul}
use hrishikos.Clib.Bitmap.{
  Drive, BitmapDisk, test, find_in_word, find_in_block, find_in_blocks, find_free_bit, failure,
  or_search,
}
use hrishikos.Clib.Bitmap.Single.{IsSingle, mark, test_lem}

-- The bits from `lo` to `hi` that lie within the bitmap are used.
abbrev pub AllMarked : BitmapDisk → ℕ → ℕ → Type 0
AllMarked b lo hi = (c : ℕ) → lo ≤ c → c < hi → c < b.total_bits → mark b c ≡ 1

-- The result of a search of the bits from `lo` to `hi`: the first free one.
abbrev pub FirstUnmarked : BitmapDisk → ℕ → ℕ → Option ℕ → Type 0
FirstUnmarked b lo hi none = AllMarked b lo hi
FirstUnmarked b lo hi (some r) =
    (lo ≤ r) × (r < hi) × (r < b.total_bits) × (mark b r ≡ 0) × AllMarked b lo r

FirstUnmarked-append :
    (b : BitmapDisk) (lo mid hi : ℕ) (o : Option ℕ)
    → lo ≤ mid
    → AllMarked b lo mid
    → FirstUnmarked b mid hi o
    → FirstUnmarked b lo hi o
FirstUnmarked-append b lo mid hi none le low rest = λ c l h t. ground (arith, low c, rest c)
FirstUnmarked-append b lo mid hi (some r) le low (from, below, inside, is_free, used) =
    (omega arith, below, inside, is_free, λ c l h t. ground (arith, low c, used c))

one_marked :
    (b : BitmapDisk) (i : ℕ)
    → (if leb b.total_bits i then true else mark b i == 1) ≡ true
    → AllMarked b i (i + 1)
one_marked b i h c l u t = let same : c ≡ i = omega arith in rw same (ground (arith, h))

module _ {S : Type 0} (drive : Drive S) (b : BitmapDisk) (s : S) (single : IsSingle b) where
  test_any :
      (i : ℕ)
      → test drive b s i
        ≡ (if (if leb b.total_bits i then true else mark b i == 1) then false else true, b, s)
  test_any i = elim (Bool-cases (leb b.total_bits i)) [
    | inl past ↦ unfold test in rw past
    | inr inside ↦ test_lem drive b s i single (ground (arith, inside)) ∙ rw inside
  ]

  -- A search leaves the bitmap and the drive as they were.
  abbrev Finds : (Option ℕ × BitmapDisk × S) → (lo hi : ℕ) → Type 0
  Finds result lo hi = (o : Option ℕ) × (result ≡ (o, b, s)) × FirstUnmarked b lo hi o

  word_used :
      (left i : ℕ) (x : Option ℕ × BitmapDisk × S)
      → i + 1 < 2 ^ 64
      → (if leb b.total_bits i then true else mark b i == 1) ≡ true
      → find_in_word drive left b s (i + 1) ≡ x
      → find_in_word drive (suc left) b s i ≡ x
  unfolding find_in_word
  word_used left i x small used run =
      let next : add64 i 1 ≡ i + 1 = omega arith in rw (test_any i, used, next) run

  word_free :
      (left i : ℕ)
      → (if leb b.total_bits i then true else mark b i == 1) ≡ false
      → find_in_word drive (suc left) b s i ≡ (some i, b, s)
  unfolding find_in_word
  word_free left i is_free = rw (test_any i, is_free)

  find_in_word-Finds :
      (left i : ℕ) → i + left < 2 ^ 64 → Finds (find_in_word drive left b s i) i (i + left)
  find_in_word-Finds zero i small =
      (none, unfold find_in_word in refl, λ c l h t. absurd (omega arith))
  find_in_word-Finds (suc left) i small =
      elim (Bool-cases (if leb b.total_bits i then true else mark b i == 1)) [
        | inl used ↦
            let (o, run, first) = find_in_word-Finds left (i + 1) (omega arith) in
            let end : i + 1 + left ≡ i + suc left = omega arith in
            (
              o,
              word_used left i (o, b, s) (omega arith) used run,
              FirstUnmarked-append b i (i + 1) (i + suc left) o (omega arith) (one_marked b i used)
                  (subst (λ hi. FirstUnmarked b (i + 1) hi o) end first),
            )
        | inr is_free ↦ (
          some i,
          word_free left i is_free,
          (
            omega arith,
            omega arith,
            ground (arith, is_free),
            ground (arith, is_free, bit-le_one (b.block (i / 64)) (i % 64)),
            λ c l h t. absurd (omega arith),
          ),
        )
      ]

  full-AllMarked : (j : ℕ) → b.block j ≡ 2 ^ 64 - 1 → AllMarked b (64 * j) (64 * j + 64)
  full-AllMarked j full c l h t =
      let word : c / 64 ≡ j = omega arith in rw (word, full) (bit-ones 64 (c % 64) (omega arith))

  block_full :
      (left j : ℕ) (x : Option ℕ × BitmapDisk × S)
      → (b.block j == 2 ^ 64 - 1) ≡ true
      → find_in_block drive left b s 0 (j + 1) ≡ x
      → find_in_block drive (suc left) b s 0 j ≡ x
  unfolding find_in_block
  block_full left j x full run = rw full run

  first_bit :
      (j : ℕ) → 64 * j < 2 ^ 64 → add64 (mul64 (mul64 0 b.block_size) 8) (mul64 j 64) ≡ 64 * j
  first_bit j small =
      let none_before : 0 * b.block_size ≡ 0 = zero-mul b.block_size in rw none_before (omega arith)

  block_open :
      (left j : ℕ) (o : Option ℕ) (x : Option ℕ × BitmapDisk × S)
      → 64 * j < 2 ^ 64
      → (b.block j == 2 ^ 64 - 1) ≡ false
      → find_in_word drive 64 b s (64 * j) ≡ (o, b, s)
      → find_in_block drive left b s 0 (j + 1) ≡ x
      → find_in_block drive (suc left) b s 0 j ≡ or_search (o, b, s) (λ c t. x)
  unfolding find_in_block
  block_open left j (some r) x small open_ here run = rw (open_, first_bit j small, here)
  block_open left j none x small open_ here run = rw (open_, first_bit j small, here) run

  -- A word's free bit is the result, and else the search goes on.
  joined :
      (o p : Option ℕ) (lo mid hi : ℕ)
      → lo ≤ mid
      → mid ≤ hi
      → FirstUnmarked b lo mid o
      → FirstUnmarked b mid hi p
      → (q : Option ℕ) × (or_search (o, b, s) (λ c t. (p, b, s)) ≡ (q, b, s))
        × FirstUnmarked b lo hi q
  joined none p lo mid hi le le' low later =
      (p, refl, FirstUnmarked-append b lo mid hi p le low later)
  joined (some r) p lo mid hi le le' (from, below, inside, is_free, used) later =
      (some r, refl, (from, omega arith, inside, is_free, used))

  find_in_block-Finds :
      (left j : ℕ)
      → 64 * (j + left) < 2 ^ 64
      → Finds (find_in_block drive left b s 0 j) (64 * j) (64 * (j + left))
  find_in_block-Finds zero j small =
      (none, unfold find_in_block in refl, λ c l h t. absurd (omega arith))
  find_in_block-Finds (suc left) j small =
      let (p, run, later) = find_in_block-Finds left (j + 1) (omega arith) in
      let (o, here, first) = find_in_word-Finds 64 (64 * j) (omega arith) in
      let start : 64 * (j + 1) ≡ 64 * j + 64 = omega arith in
      let end : 64 * (j + 1 + left) ≡ 64 * (j + suc left) = omega arith in
      let rest : FirstUnmarked b (64 * j + 64) (64 * (j + suc left)) p =
        subst (λ hi. FirstUnmarked b (64 * j + 64) hi p) end
          (subst (λ lo. FirstUnmarked b lo (64 * (j + 1 + left)) p) start later) in
      elim (Bool-cases (b.block j == 2 ^ 64 - 1)) [
        | inl full ↦ (
          p,
          block_full left j (p, b, s) full run,
          FirstUnmarked-append b (64 * j) (64 * j + 64) (64 * (j + suc left)) p (omega arith)
              (full-AllMarked j (ground (arith, full))) rest,
        )
        | inr open_ ↦
            let (q, same, both) =
              joined o p (64 * j) (64 * j + 64) (64 * (j + suc left)) (omega arith) (omega arith)
                first rest in
            (q, block_open left j o (p, b, s) (omega arith) open_ here run ∙ same, both)
      ]

  one_block :
      b.block_count ≡ 1
      → find_in_blocks drive b.block_count b s b.block_index ≡ find_in_blocks drive 1 b s 0
  one_block one = ap₂ (λ n c. find_in_blocks drive n b s c) one single.first

  blocks_found :
      (r : ℕ)
      → find_in_block drive (b.block_size / 8) b s 0 0 ≡ (some r, b, s)
      → find_in_blocks drive 1 b s 0 ≡ (some r, b, s)
  unfolding find_in_blocks
  blocks_found r run = rw run

  blocks_missed :
      find_in_block drive (b.block_size / 8) b s 0 0 ≡ (none, b, s)
      → (find_in_blocks drive 1 b s 0).0 ≡ none
  unfolding find_in_blocks
  blocks_missed run = rw run

  free_found :
      (r : ℕ)
      → b.block_count ≡ 1
      → b.used_bits < b.total_bits
      → find_in_block drive (b.block_size / 8) b s 0 0 ≡ (some r, b, s)
      → find_free_bit drive b s ≡ (r, b, s)
  unfolding find_free_bit
  free_found r one room run =
      let some_free : leb b.total_bits b.used_bits ≡ false = ground arith in
      rw (some_free, one_block one ∙ blocks_found r run)

  free_missed :
      b.block_count ≡ 1
      → b.used_bits < b.total_bits
      → find_in_block drive (b.block_size / 8) b s 0 0 ≡ (none, b, s)
      → (find_free_bit drive b s).0 ≡ failure
  unfolding find_free_bit
  free_missed one room run =
      let some_free : leb b.total_bits b.used_bits ≡ false = ground arith in
      rw (some_free, one_block one, blocks_missed run)

-- On a bitmap of one block of whole words, of less than 2 ^ 60 bytes, with less bits counted as used
-- than it has,
-- `bitmap_disk_find_free_bit` returns the first free bit and changes nothing, or it returns the
-- failure and every bit is used.
pub find_free_bit-FirstUnmarked :
    {S : Type 0} (drive : Drive S) (b : BitmapDisk) (s : S)
    → IsSingle b
    → b.block_count ≡ 1
    → b.block_size % 8 ≡ 0
    → b.block_size < 2 ^ 60
    → b.used_bits < b.total_bits
    → ((r : ℕ) × (find_free_bit drive b s ≡ (r, b, s)) × FirstUnmarked b 0 b.total_bits (some r))
      ⊎ (((find_free_bit drive b s).0 ≡ failure) × AllMarked b 0 b.total_bits)
find_free_bit-FirstUnmarked {S} drive b s single one whole small room =
    by_result (find_in_block-Finds drive b s single (b.block_size / 8) 0 (omega arith))
  where
    by_result :
        ((o : Option ℕ) × (find_in_block drive (b.block_size / 8) b s 0 0 ≡ (o, b, s))
          × FirstUnmarked b (64 * 0) (64 * (0 + b.block_size / 8)) o)
        → ((r : ℕ) × (find_free_bit drive b s ≡ (r, b, s))
            × FirstUnmarked b 0 b.total_bits (some r))
          ⊎ (((find_free_bit drive b s).0 ≡ failure) × AllMarked b 0 b.total_bits)
    by_result (none, run, used) = inr (
      free_missed drive b s single one room run,
      λ c l h t. used c (omega arith) (omega (arith, single.fits)) t,
    )
    by_result (some r, run, (from, below, inside, is_free, used)) = inl (
      r,
      free_found drive b s single r one room run,
      (omega arith, inside, inside, is_free, λ c l h t. used c (omega arith) h t),
    )
