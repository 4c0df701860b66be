-- ===== src/Fs/Inode/Search.antt =====
-- os/fs/fs_inode.c: `fs_inode_get` and the search in the cache.
use hrishikos.Base.{
  ℕ, zero, suc, ◌+◌, ◌≤◌, ◌<◌, ◌≡◌, ◌≢◌, ◌⊎◌, inl, inr, refl, arith, ap, sym, ◌∙◌, true, Option,
  none, some, ◌==◌, eq-cases, ==_ne, Bool-cases, subst,
}
use hrishikos.Fs.Inode.{Inode, CacheEntry, State, search_loop, cache_search}
use hrishikos.Fs.Inode.Cache.{IsSame}

-- The entry is taken by the inode with that number.
abbrev pub IsFor : CacheEntry → (index : ℕ) → Type 0
IsFor e index = (e.valid ≡ true) × (e.index ≡ index)

-- No inode is in the cache twice.
abbrev pub IsUnique : {S : Type 0} → State S → Type 0
IsUnique s =
    (i j index : ℕ) → i < 128 → j < 128 → IsFor (s.cache i) index → IsFor (s.cache j) index → i ≡ j

-- What a search over the entries from `i` up to `end` says.
abbrev pub IsFound : {S : Type 0} → State S → (index i end : ℕ) → Option ℕ → Type 0
IsFound s index i end (some slot) = (slot < end) × IsFor (s.cache slot) index
IsFound s index i end none = (j : ℕ) → i ≤ j → j < end → ¬ IsFor (s.cache j) index

IsFor-dec : (e : CacheEntry) (index : ℕ) → IsFor e index ⊎ (¬ IsFor e index)
IsFor-dec e index = elim (Bool-cases e.valid) [
  | inr invalid ↦ inr (λ is. ground (arith, invalid, is.0))
  | inl valid ↦ elim (eq-cases e.index index) [
    | inl here ↦ inl (valid, here)
    | inr off ↦ inr (λ is. off is.1)
  ]
]

module _ {S : Type 0} where
  search_hit :
      (left : ℕ) (s : State S) (index i : ℕ)
      → IsFor (s.cache i) index
      → search_loop (suc left) s index i ≡ some i
  unfolding search_loop
  search_hit left s index i (valid, here) =
      let same : ((s.cache i).index == index) ≡ true = ground (arith, here) in rw (valid, same) refl

  search_miss :
      (left : ℕ) (s : State S) (index i : ℕ)
      → ¬ IsFor (s.cache i) index
      → search_loop (suc left) s index i ≡ search_loop left s index (i + 1)
  unfolding search_loop
  search_miss left s index i not_here = elim (Bool-cases (s.cache i).valid) [
    | inr invalid ↦ rw invalid refl
    | inl valid ↦ rw (valid, ==_ne (s.cache i).index index (λ e. not_here (valid, e))) refl
  ]

  search_none : (s : State S) (index i : ℕ) → search_loop 0 s index i ≡ none
  unfolding search_loop
  search_none s index i = refl

  IsFound-back :
      (left : ℕ) (s : State S) (index i : ℕ) (o : Option ℕ)
      → ¬ IsFor (s.cache i) index
      → IsFound s index (i + 1) (i + 1 + left) o
      → IsFound s index i (i + suc left) o
  IsFound-back left s index i (some slot) off (below, is) = (omega arith, is)
  IsFound-back left s index i none off rest = λ j lo hi. elim (eq-cases j i) [
    | inl here ↦ rw here off
    | inr ne ↦ rest j (omega arith) (omega arith)
  ]

  search_loop_lem :
      (left : ℕ) (s : State S) (index i : ℕ)
      → IsFound s index i (i + left) (search_loop left s index i)
  search_loop_lem zero s index i =
      subst (λ o. IsFound s index i (i + 0) o) (sym (search_none s index i))
        (λ j lo hi. absurd (omega arith))
  search_loop_lem (suc left) s index i = elim (IsFor-dec (s.cache i) index) [
    | inl here ↦
        subst (λ o. IsFound s index i (i + suc left) o) (sym (search_hit left s index i here))
          (omega arith, here)
    | inr off ↦
        subst (λ o. IsFound s index i (i + suc left) o) (sym (search_miss left s index i off))
          (IsFound-back left s index i (search_loop left s index (i + 1)) off
            (search_loop_lem left s index (i + 1)))
  ]

  pub cache_search_lem : (s : State S) (index : ℕ) → IsFound s index 0 128 (cache_search s index)
  unfolding cache_search
  cache_search_lem s index = search_loop_lem 128 s index 0

-- The inode is in the cache, as it was there or as `from_disk` says, and in one place only.
pub record IsGot {S : Type 0} (s : State S) (from_disk : Inode) (index slot : ℕ) (t : State S)
    : Type 0 where
  pub inside : slot < 128
  pub at_slot : IsFor (t.cache slot) index
  pub referenced : (t.cache slot).reference ≡ 1
  pub unique : IsUnique t
  pub source :
      (IsFor (s.cache slot) index × ((t.cache slot).inode ≡ (s.cache slot).inode))
      ⊎ (((j : ℕ) → j < 128 → ¬ IsFor (s.cache j) index) × ((t.cache slot).inode ≡ from_disk))

same-IsFor : (e f : CacheEntry) (index : ℕ) → IsSame e f → IsFor e index → IsFor f index
same-IsFor e f index (v, i, n) (valid, here) = (sym v ∙ valid, sym i ∙ here)

module _ {S : Type 0} where
  -- Entries that say the same hold the same inodes once.
  pub same-IsUnique :
      (s t : State S) → ((i : ℕ) → IsSame (t.cache i) (s.cache i)) → IsUnique s → IsUnique t
  same-IsUnique s t same unique i j index hi hj fi fj =
      unique i j index hi hj (same-IsFor (t.cache i) (s.cache i) index (same i) fi)
        (same-IsFor (t.cache j) (s.cache j) index (same j) fj)

  -- One new entry for an inode that was not in the cache.
  pub added-IsUnique :
      (s t : State S) (slot index : ℕ)
      → ((i : ℕ) → i ≢ slot → IsSame (t.cache i) (s.cache i))
      → IsFor (t.cache slot) index
      → ((j : ℕ) → j < 128 → ¬ IsFor (s.cache j) index)
      → IsUnique s
      → IsUnique t
  added-IsUnique s t slot index same here missing unique i j k hi hj fi fj =
      elim (eq-cases i slot) [
        | inl at_i ↦ elim (eq-cases j slot) [
          | inl at_j ↦ at_i ∙ sym at_j
          | inr off_j ↦ absurd (clash j hj off_j (sym (number i at_i fi)) fj)
        ]
        | inr off_i ↦ elim (eq-cases j slot) [
          | inl at_j ↦ absurd (clash i hi off_i (sym (number j at_j fj)) fi)
          | inr off_j ↦
              unique i j k hi hj (same-IsFor (t.cache i) (s.cache i) k (same i off_i) fi)
                (same-IsFor (t.cache j) (s.cache j) k (same j off_j) fj)
        ]
      ]
    where
      number : (a : ℕ) → a ≡ slot → IsFor (t.cache a) k → index ≡ k
      number a at (_, e) = sym here.1 ∙ ap (λ b. (t.cache b).index) (sym at) ∙ e

      clash : (a : ℕ) → a < 128 → a ≢ slot → k ≡ index → IsFor (t.cache a) k → ⊥
      clash a ha off e f = missing a ha (
          same-IsFor (t.cache a) (s.cache a) index (same a off)
            (subst (λ n. IsFor (t.cache a) n) e f))

  -- An inode in the first entry is found there.
  pub cache_search_first :
      (s : State S) (index : ℕ) → IsFor (s.cache 0) index → cache_search s index ≡ some 0
  unfolding cache_search
  cache_search_first s index is = search_hit 127 s index 0 is
