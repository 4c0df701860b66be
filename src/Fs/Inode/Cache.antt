-- ===== src/Fs/Inode/Cache.antt =====
-- os/fs/fs_inode.c: one eviction from the cache.
use hrishikos.Base.{
  ℕ, ◌+◌, ◌≤◌, ◌<◌, ◌≡◌, ◌≢◌, inl, inr, refl, arith, ap, sym, ◌∙◌, true, false, none, some, ◌==◌,
  ltb, leb, if◌then◌else◌, add64, sub64, eq-cases, ==_ne, ==_refl, Bool-cases, if_true, if_false,
  ap₂,
}
use hrishikos.Clib.Bitmap.{Drive, failure}
use hrishikos.Fs.Superblock.{Superblock}
use hrishikos.Fs.Inode.{
  CacheEntry, State, Layout, set_entry, entry_at, entry_flush, invalidate, entry_evict,
  evict_forced, write_inode,
}

-- What an entry says about its inode is the same.
abbrev pub IsSame : CacheEntry → CacheEntry → Type 0
IsSame e f = (e.valid ≡ f.valid) × (e.index ≡ f.index) × (e.inode ≡ f.inode)

-- All entries but the one at `slot` say the same, and that one is free.
pub record IsEvicted {S : Type 0} (s : State S) (slot : ℕ) (t : State S) : Type 0 where
  pub inside : slot < 128
  pub free : (t.cache slot).valid ≡ false
  pub kept : (i : ℕ) → i ≢ slot → IsSame (t.cache i) (s.cache i)
  pub same_inode_bitmap : t.inode_bitmap ≡ s.inode_bitmap
  pub same_data_bitmap : t.data_bitmap ≡ s.data_bitmap

pub entry_at_lem : {S : Type 0} (s : State S) (i : ℕ) → i < 128 → entry_at s i ≡ some (s.cache i)
unfolding entry_at
entry_at_lem s i h = let inside : ltb i 128 ≡ true = ground arith in rw inside refl

pub entry_at_out : {S : Type 0} (s : State S) (i : ℕ) → 128 ≤ i → entry_at s i ≡ none
unfolding entry_at
entry_at_out s i h = let outside : ltb i 128 ≡ false = ground arith in rw outside refl

pub set_entry_self :
    {S : Type 0} (s : State S) (i : ℕ) (e : CacheEntry) → (set_entry s i e).cache i ≡ e
set_entry_self s i e = rw (==_refl i) refl

pub set_entry_ne :
    {S : Type 0} (s : State S) (i j : ℕ) (e : CacheEntry)
    → j ≢ i
    → (set_entry s i e).cache j ≡ s.cache j
set_entry_ne s i j e ne = rw (==_ne j i ne) refl

module _ {S : Type 0} (drive : Drive S) (superblock : Superblock) (layout : Layout)
    (garbage : ℕ → ℕ) where
  -- The state after the flush of entry `i`.
  abbrev pub flushed : State S → (i : ℕ) → State S
  flushed s i =
      if (s.cache i).dirty
      then record (set_entry s i (record (s.cache i) { dirty = false })) {
        disk =
            write_inode drive superblock layout garbage s.disk (s.cache i).index (s.cache i).inode;
      }
      else s

  pub entry_flush_lem :
      (s : State S) (i : ℕ)
      → i < 128
      → entry_flush drive superblock layout garbage s i ≡ some (flushed s i)
  unfolding entry_flush
  entry_flush_lem s i h = rw (entry_at_lem s i h) refl

  pub flushed-IsSame : (s : State S) (i j : ℕ) → IsSame ((flushed s i).cache j) (s.cache j)
  flushed-IsSame s i j = elim (Bool-cases (s.cache i).dirty) [
    | inl dirty ↦ rw dirty (elim (eq-cases j i) [
      | inl here ↦ rw (here, ==_refl i) (refl, refl, refl)
      | inr off ↦ rw (==_ne j i off) (refl, refl, refl)
    ])
    | inr clean ↦ rw clean (refl, refl, refl)
  ]

  abbrev pub evicted_at : (s : State S) (hand : ℕ) → State S
  evicted_at s hand = record (invalidate (flushed s s.clock_hand) s.clock_hand) {
    clock_hand = hand;
  }

  abbrev pub passed_at : (s : State S) → State S
  passed_at s =
      record (set_entry s s.clock_hand (record (s.cache s.clock_hand) { reference = 0 })) {
        clock_hand = if leb 128 (add64 s.clock_hand 1) then 0 else add64 s.clock_hand 1;
      }

  -- The body of `entry_evict` with the hand on the cache.
  abbrev evict_body : State S → ℕ × State S
  evict_body s =
      if (s.cache s.clock_hand).valid
      then (if (s.cache s.clock_hand).reference == 0
          then (sub64 (add64 s.clock_hand 1) 1, evicted_at s (add64 s.clock_hand 1))
          else (failure, passed_at s))
      else (failure, s)

  evict_run :
      (s : State S)
      → s.clock_hand < 128
      → entry_evict drive superblock layout garbage s ≡ some (evict_body s)
  unfolding entry_evict
  evict_run s h = rw (entry_at_lem s s.clock_hand h, entry_flush_lem s s.clock_hand h) refl

  pub evict_none :
      (s : State S)
      → s.clock_hand < 128
      → (s.cache s.clock_hand).valid ≡ false
      → entry_evict drive superblock layout garbage s ≡ some (failure, s)
  evict_none s h invalid = evict_run s h ∙ ap (λ r. some r) (if_false _ invalid)

  pub evict_taken :
      (s : State S)
      → s.clock_hand < 128
      → (s.cache s.clock_hand).valid ≡ true
      → (s.cache s.clock_hand).reference ≡ 0
      → entry_evict drive superblock layout garbage s
        ≡ some (s.clock_hand, evicted_at s (s.clock_hand + 1))
  evict_taken s h valid unused =
      let next : add64 s.clock_hand 1 ≡ s.clock_hand + 1 = omega (arith, h) in
      let back : sub64 (add64 s.clock_hand 1) 1 ≡ s.clock_hand = omega (arith, h) in
      let zero_ : ((s.cache s.clock_hand).reference == 0) ≡ true = ground (arith, unused) in
      evict_run s h
      ∙ ap (λ r. some r) (if_true _ valid ∙ if_true _ zero_)
      ∙ ap₂ (λ slot hand. some (slot, evicted_at s hand)) back next

  pub evict_passed :
      (s : State S)
      → s.clock_hand < 128
      → (s.cache s.clock_hand).valid ≡ true
      → (s.cache s.clock_hand).reference ≢ 0
      → entry_evict drive superblock layout garbage s ≡ some (failure, passed_at s)
  evict_passed s h valid used =
      evict_run s h
      ∙ ap (λ r. some r)
          (if_true _ valid ∙ if_false _ (==_ne (s.cache s.clock_hand).reference 0 used))

  pub forced_run :
      (s : State S)
      → s.clock_hand < 128
      → evict_forced drive superblock layout garbage s
        ≡ some (s.clock_hand, evicted_at s (if s.clock_hand == 127 then 0 else s.clock_hand + 1))
  unfolding evict_forced
  forced_run s h =
      let next : add64 s.clock_hand 1 ≡ s.clock_hand + 1 = omega (arith, h) in
      rw (entry_flush_lem s s.clock_hand h, next)
        (elim (eq-cases s.clock_hand 127) [
          | inl last ↦
              let over : leb 128 (s.clock_hand + 1) ≡ true = ground (arith, last) in
              let start : sub64 (s.clock_hand + 1) 128 ≡ 0 = omega (arith, last) in
              let at_last : (s.clock_hand == 127) ≡ true = ground (arith, last) in
              ap (λ r. some r) (if_true _ over)
              ∙ ap₂ (λ slot hand. some (slot, evicted_at s hand)) (sym last)
                  (start ∙ sym (if_true _ at_last))
          | inr more ↦
              let inside : leb 128 (s.clock_hand + 1) ≡ false = ground (arith, more, h) in
              let back : sub64 (s.clock_hand + 1) 1 ≡ s.clock_hand = omega (arith, h) in
              ap (λ r. some r) (if_false _ inside)
              ∙ ap₂ (λ slot hand. some (slot, evicted_at s hand)) back
                  (sym (if_false _ (==_ne s.clock_hand 127 more)))
        ])
