-- ===== src/Fs/Inode/Get.antt =====
-- os/fs/fs_inode.c: `fs_inode_get` and `fs_inode_cache_add`.
use hrishikos.Base.{
  ℕ, ◌/◌, ◌%◌, ◌<◌, ◌≡◌, ◌≢◌, inl, inr, refl, arith, ap, sym, subst, ◌∙◌, true, false, Option, none,
  some, eq-cases,
}
use hrishikos.Clib.Bitmap.{Drive}
use hrishikos.Fs.Superblock.{Superblock}
use hrishikos.Fs.Inode.{
  Inode, CacheEntry, State, Layout, set_entry, cache_search, cache_evict, cache_add, table_get,
  get_found, get,
}
use hrishikos.Fs.Inode.Cache.{IsSame, entry_at_lem, set_entry_self, set_entry_ne}
use hrishikos.Fs.Inode.Evict.{cache_evict-IsEvicted}
use hrishikos.Fs.Inode.Search.{
  IsFor, IsUnique, IsFound, IsGot, same-IsUnique, added-IsUnique, cache_search_lem,
}

-- The entry that `fs_inode_cache_add` writes.
abbrev added : Inode → (index : ℕ) → CacheEntry
added inode index = record {
  inode = inode;
  index = index;
  reference = 1;
  dirty = false;
  valid = true;
}

-- The new inode has its entry, and the others but the evicted one say what they said.
pub record IsAdded {S : Type 0} (s : State S) (inode : Inode) (index slot : ℕ) (t : State S)
    : Type 0 where
  pub inside : slot < 128
  pub entry : t.cache slot ≡ added inode index
  pub kept : (i : ℕ) → i ≢ slot → IsSame (t.cache i) (s.cache i)

module _ {S : Type 0} (drive : Drive S) (superblock : Superblock) (layout : Layout)
    (garbage : ℕ → ℕ) where
  add_run :
      (s t : State S) (inode : Inode) (index slot : ℕ)
      → cache_evict drive superblock layout garbage s ≡ some (slot, t)
      → slot < 128
      → cache_add drive superblock layout garbage s inode index
        ≡ some (slot, set_entry t slot (added inode index))
  unfolding cache_add
  add_run s t inode index slot run inside = rw (run, entry_at_lem t slot inside) refl

  cache_add-IsAdded :
      (s : State S) (inode : Inode) (index : ℕ)
      → s.clock_hand < 128
      → (slot : ℕ) × (t : State S) × (cache_add drive superblock layout garbage s inode index
          ≡ some (slot, t))
        × IsAdded s inode index slot t
  cache_add-IsAdded s inode index h =
      let (slot, t, run, is) = cache_evict-IsEvicted drive superblock layout garbage s h in
      (
        slot,
        set_entry t slot (added inode index),
        add_run s t inode index slot run is.inside,
        record {
          inside = is.inside;
          entry = set_entry_self t slot (added inode index);
          kept = λ i off.
              subst (λ e. IsSame e (s.cache i))
                (sym (set_entry_ne t slot i (added inode index) off)) (is.kept i off);
        },
      )

  abbrev on_disk : State S → (index : ℕ) → Inode
  on_disk s index =
      table_get drive superblock layout garbage s.disk (index / superblock.inodes_per_block)
        (index % superblock.inodes_per_block)

  abbrev Gets : State S → (index : ℕ) → Option (ℕ × State S) → Type 0
  Gets s index o =
      (slot : ℕ) × (t : State S) × (o ≡ some (slot, t)) × IsGot s (on_disk s index) index slot t

  found-Gets :
      (s : State S) (index : ℕ) (o : Option ℕ)
      → s.clock_hand < 128
      → IsUnique s
      → IsFound s index 0 128 o
      → Gets s index (get_found drive superblock layout garbage s index o)
  unfolding get_found
  found-Gets s index (some slot) h unique (inside, is) =
      let e = record (s.cache slot) { reference = 1 } in
      let at = set_entry_self s slot e in
      (
        slot,
        set_entry s slot e,
        refl,
        record {
          inside = inside;
          at_slot = (
            ap (λ (f : CacheEntry). f.valid) at ∙ is.0,
            ap (λ (f : CacheEntry). f.index) at ∙ is.1,
          );
          referenced = ap (λ (f : CacheEntry). f.reference) at;
          unique = same-IsUnique s (set_entry s slot e) (λ i. same i) unique;
          source = inl (is, ap (λ (f : CacheEntry). f.inode) at);
        },
      )
    where
      same :
          (i : ℕ)
          → IsSame
              ((set_entry s slot (record (s.cache slot) { reference = 1 })).cache i)
              (s.cache i)
      same i = elim (eq-cases i slot) [
        | inl here ↦
            subst
              (λ j.
                IsSame ((set_entry s slot (record (s.cache slot) { reference = 1 })).cache j)
                  (s.cache j))
              (sym here)
              (subst (λ f. IsSame f (s.cache slot))
                (sym (set_entry_self s slot (record (s.cache slot) { reference = 1 })))
                (refl, refl, refl))
        | inr off ↦
            subst (λ f. IsSame f (s.cache i))
              (sym (set_entry_ne s slot i (record (s.cache slot) { reference = 1 }) off))
              (refl, refl, refl)
      ]
  found-Gets s index none h unique missing =
      let (slot, t, run, is) = cache_add-IsAdded s (on_disk s index) index h in
      let e = is.entry in
      let not_there = λ (j : ℕ) (hj : j < 128). missing j (omega arith) hj in
      let here : IsFor (t.cache slot) index =
        (ap (λ (f : CacheEntry). f.valid) e, ap (λ (f : CacheEntry). f.index) e) in
      (
        slot,
        t,
        run,
        record {
          inside = is.inside;
          at_slot = here;
          referenced = ap (λ (f : CacheEntry). f.reference) e;
          unique = added-IsUnique s t slot index is.kept here not_there unique;
          source = inr (not_there, ap (λ (f : CacheEntry). f.inode) e);
        },
      )

  -- With the hand on the cache and no inode in it twice, `fs_inode_get` returns an entry that is taken
  -- by the inode asked for and marked as referenced: with the cached inode when there is one, and
  -- with that of the table on the disk only when there is none. No inode is in the cache twice
  -- afterwards.
  pub get-IsGot :
      (s : State S) (index : ℕ)
      → s.clock_hand < 128
      → IsUnique s
      → (slot : ℕ) × (t : State S) × (get drive superblock layout garbage s index ≡ some (slot, t))
        × IsGot s
            (table_get drive superblock layout garbage s.disk
              (index / superblock.inodes_per_block)
              (index % superblock.inodes_per_block))
            index
            slot
            t
  unfolding get
  get-IsGot s index h unique =
      found-Gets s index (cache_search s index) h unique (cache_search_lem s index)

  -- A cached inode needs no disk.
  pub get_cached :
      (s : State S) (index slot : ℕ)
      → cache_search s index ≡ some slot
      → get drive superblock layout garbage s index
        ≡ some (slot, set_entry s slot (record (s.cache slot) { reference = 1 }))
  unfolding get get_found
  get_cached s index slot found = rw found refl
