-- ===== src/Fs/Inode/Evict.antt =====
-- os/fs/fs_inode.c: eviction from the cache and its clock hand.
use hrishikos.Base.{
  ℕ, zero, suc, ◌+◌, ◌%◌, ◌≤◌, ◌<◌, ◌≡◌, inl, inr, refl, arith, ap, sym, ◌∙◌, true, false, Option,
  none, some, ◌==◌, if◌then◌else◌, eq-cases, ==_ne, ==_refl, Bool-cases, subst, if_true, if_false,
}
use hrishikos.Clib.Bitmap.{Drive, failure}
use hrishikos.Fs.Superblock.{Superblock}
use hrishikos.Fs.Inode.{
  CacheEntry, State, Layout, entry_evict, evict_forced, evict_loop, cache_evict,
}
use hrishikos.Fs.Inode.Cache.{
  IsSame, IsEvicted, entry_at_out, set_entry_self, set_entry_ne, flushed, flushed-IsSame,
  evicted_at, passed_at, evict_none, evict_taken, evict_passed, forced_run,
}

module _ {S : Type 0} (drive : Drive S) (superblock : Superblock) (layout : Layout)
    (garbage : ℕ → ℕ) where
  evicted_at-IsEvicted :
      (s : State S) (hand : ℕ)
      → s.clock_hand < 128
      → IsEvicted s s.clock_hand (evicted_at drive superblock layout garbage s hand)
  evicted_at-IsEvicted s hand h = record {
    inside = h;
    free =
        ap (λ e. e.valid)
          (set_entry_self (flushed drive superblock layout garbage s s.clock_hand) s.clock_hand
            (record ((flushed drive superblock layout garbage s s.clock_hand).cache s.clock_hand) {
              valid = false;
            }));
    kept = λ i off.
        subst (λ e. IsSame e (s.cache i))
          (sym (
            set_entry_ne (flushed drive superblock layout garbage s s.clock_hand) s.clock_hand i
              (record ((flushed drive superblock layout garbage s s.clock_hand).cache
                s.clock_hand) { valid = false })
              off))
          (flushed-IsSame drive superblock layout garbage s s.clock_hand i);
    same_inode_bitmap = elim (Bool-cases (s.cache s.clock_hand).dirty) [
      | inl dirty ↦ ap (λ (t : State S). t.inode_bitmap) (if_true _ dirty)
      | inr clean ↦ ap (λ (t : State S). t.inode_bitmap) (if_false _ clean)
    ];
    same_data_bitmap = elim (Bool-cases (s.cache s.clock_hand).dirty) [
      | inl dirty ↦ ap (λ (t : State S). t.data_bitmap) (if_true _ dirty)
      | inr clean ↦ ap (λ (t : State S). t.data_bitmap) (if_false _ clean)
    ];
  }

  passed-IsSame :
      (s : State S) (i : ℕ)
      → IsSame ((passed_at drive superblock layout garbage s).cache i) (s.cache i)
  passed-IsSame s i = elim (eq-cases i s.clock_hand) [
    | inl here ↦ rw (here, ==_refl s.clock_hand) (refl, refl, refl)
    | inr off ↦ rw (==_ne i s.clock_hand off) (refl, refl, refl)
  ]

  IsSame-trans : (e f g : CacheEntry) → IsSame e f → IsSame f g → IsSame e g
  IsSame-trans e f g (a, b, c) (a', b', c') = (a ∙ a', b ∙ b', c ∙ c')

  passed-IsEvicted :
      (s t : State S) (slot : ℕ)
      → IsEvicted (passed_at drive superblock layout garbage s) slot t
      → IsEvicted s slot t
  passed-IsEvicted s t slot is = record {
    inside = is.inside;
    free = is.free;
    kept = λ i off.
        IsSame-trans (t.cache i) ((passed_at drive superblock layout garbage s).cache i) (s.cache i)
          (is.kept i off) (passed-IsSame s i);
    same_inode_bitmap = is.same_inode_bitmap;
    same_data_bitmap = is.same_data_bitmap;
  }

  loop_step :
      (left : ℕ) (s t : State S)
      → entry_evict drive superblock layout garbage s ≡ some (failure, t)
      → evict_loop drive superblock layout garbage (suc left) s
        ≡ evict_loop drive superblock layout garbage left t
  unfolding evict_loop
  loop_step left s t e = rw e refl

  loop_found :
      (left slot : ℕ) (s t : State S)
      → slot < 128
      → entry_evict drive superblock layout garbage s ≡ some (slot, t)
      → evict_loop drive superblock layout garbage (suc left) s ≡ some (slot, t)
  unfolding evict_loop
  loop_found left slot s t inside e =
      let ne : (slot == failure) ≡ false = ground (arith, inside) in rw (e, ne) refl

  loop_end :
      (s : State S)
      → evict_loop drive superblock layout garbage 0 s
        ≡ evict_forced drive superblock layout garbage s
  unfolding evict_loop
  loop_end s = refl

  abbrev pub Evicts : State S → Option (ℕ × State S) → Type 0
  Evicts s o = (slot : ℕ) × (t : State S) × (o ≡ some (slot, t)) × IsEvicted s slot t

  evict_loop-IsEvicted :
      (left : ℕ) (s : State S)
      → s.clock_hand < 128
      → Evicts s (evict_loop drive superblock layout garbage left s)
  evict_loop-IsEvicted zero s h = (
    s.clock_hand,
    evicted_at drive superblock layout garbage s
        (if s.clock_hand == 127 then 0 else s.clock_hand + 1),
    loop_end s ∙ forced_run drive superblock layout garbage s h,
    evicted_at-IsEvicted s (if s.clock_hand == 127 then 0 else s.clock_hand + 1) h,
  )
  evict_loop-IsEvicted (suc left) s h = elim (Bool-cases (s.cache s.clock_hand).valid) [
    | inr invalid ↦
        let (slot, t, run, is) = evict_loop-IsEvicted left s h in
        (
          slot,
          t,
          loop_step left s s (evict_none drive superblock layout garbage s h invalid) ∙ run,
          is,
        )
    | inl valid ↦ elim (eq-cases (s.cache s.clock_hand).reference 0) [
      | inl unused ↦ (
        s.clock_hand,
        evicted_at drive superblock layout garbage s (s.clock_hand + 1),
        loop_found left s.clock_hand s
            (evicted_at drive superblock layout garbage s (s.clock_hand + 1)) h
            (evict_taken drive superblock layout garbage s h valid unused),
        evicted_at-IsEvicted s (s.clock_hand + 1) h,
      )
      | inr used ↦
          let inside : (passed_at drive superblock layout garbage s).clock_hand < 128 =
            ground (arith, h) in
          let (slot, t, run, is) =
            evict_loop-IsEvicted left (passed_at drive superblock layout garbage s) inside in
          (
            slot,
            t,
            loop_step left s (passed_at drive superblock layout garbage s)
                  (evict_passed drive superblock layout garbage s h valid used)
                ∙ run,
            passed-IsEvicted s t slot is,
          )
    ]
  ]

  -- With the hand on the cache, `fs_inode_cache_evict` ends with a free entry, and every other entry
  -- says what it said.
  pub cache_evict-IsEvicted :
      (s : State S) → s.clock_hand < 128 → Evicts s (cache_evict drive superblock layout garbage s)
  unfolding cache_evict
  cache_evict-IsEvicted s h = evict_loop-IsEvicted 128 s h

  loop_free :
      (left : ℕ) (s : State S)
      → s.clock_hand < 128
      → (s.cache s.clock_hand).valid ≡ false
      → evict_loop drive superblock layout garbage left s
        ≡ evict_forced drive superblock layout garbage s
  loop_free zero s h invalid = loop_end s
  loop_free (suc left) s h invalid =
      loop_step left s s (evict_none drive superblock layout garbage s h invalid)
      ∙ loop_free left s h invalid

  -- When the entry at the hand is free, `fs_inode_cache_evict` takes it, although its loop never gets
  -- past it, and the hand goes on to the next entry, and from the last one to the first.
  pub cache_evict_free :
      (s : State S)
      → s.clock_hand < 128
      → (s.cache s.clock_hand).valid ≡ false
      → (t : State S) × (cache_evict drive superblock layout garbage s ≡ some (s.clock_hand, t))
        × (t.clock_hand ≡ (s.clock_hand + 1) % 128)
        × IsEvicted s s.clock_hand t
  unfolding cache_evict
  cache_evict_free s h invalid =
      let hand = if s.clock_hand == 127 then 0 else s.clock_hand + 1 in
      (
        evicted_at drive superblock layout garbage s hand,
        loop_free 128 s h invalid ∙ forced_run drive superblock layout garbage s h,
        ground (arith, h),
        evicted_at-IsEvicted s hand h,
      )

  evict_out :
      (left : ℕ) (s : State S)
      → 128 ≤ s.clock_hand
      → evict_loop drive superblock layout garbage (suc left) s ≡ none
  unfolding evict_loop entry_evict
  evict_out left s h = rw (entry_at_out s s.clock_hand h) refl

  -- When the last entry of the cache is taken and not referenced and the hand stands there,
  -- `fs_inode_cache_evict` takes it and leaves the hand behind the end of the cache, where the next
  -- call reads.
  pub cache_evict_overrun :
      (s : State S)
      → s.clock_hand ≡ 127
      → (s.cache s.clock_hand).valid ≡ true
      → (s.cache s.clock_hand).reference ≡ 0
      → (t : State S) × (cache_evict drive superblock layout garbage s ≡ some (s.clock_hand, t))
        × (t.clock_hand ≡ 128)
        × (cache_evict drive superblock layout garbage t ≡ none)
  unfolding cache_evict
  cache_evict_overrun s last valid unused =
      let h : s.clock_hand < 128 = omega (arith, last) in
      let t = evicted_at drive superblock layout garbage s (s.clock_hand + 1) in
      (
        t,
        loop_found 127 s.clock_hand s t h
            (evict_taken drive superblock layout garbage s h valid unused),
        omega (arith, last),
        evict_out 127 t (omega (arith, last)),
      )
