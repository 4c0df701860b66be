-- ===== src/Mm/Vmm/Walk.antt =====
-- os/mm/vmm.c: `vmm_map_page` and `vmm_unmap_page` against the page walk of the processor.
use hrishikos.Base.{
  ℕ, ◌/◌, ◌%◌, ◌^◌, ◌<◌, ◌≡◌, ◌≢◌, refl, arith, ◌==◌, Bool, true, false, Option, none, some,
  Bool-cases, inl, inr, ==_ne, ==_refl, update, u64,
}
use hrishikos.Mm.Pmm.{free_block}
use hrishikos.Mm.Vmm.{
  Vmm, pte_get_frame, pte_set_frame, pte_is_present, present_entry, level_entry, map_entry,
  map_page, unmap_page, slot, table_index, next_table, or_fail, free_page, physical_to_virtual,
}
use hrishikos.Mm.Vmm.Entry.{new_entry, get_frame-set_frame, is_present_iff, bit-set_frame}

abbrev chain : Option ℕ → (ℕ → Option ℕ) → Option ℕ
chain none rest = none
chain (some entry) rest = rest entry

-- The table of the last level that the processor reaches from `pml4`.
pub page_table : Vmm → (pml4 address : ℕ) → Option ℕ
page_table v pml4 address = chain (present_entry v pml4 (table_index 3 address)) λ pml4_entry.
    chain (present_entry v (next_table v pml4_entry) (table_index 2 address)) λ pdpt_entry.
      chain (present_entry v (next_table v pdpt_entry) (table_index 1 address))
        λ pd_entry. some (next_table v pd_entry)

-- The frame that the processor finds for a virtual address in tables whose last level is that of
-- pages of 4096 bytes, as `vmm_init` builds them: the bits `PDE_PAGE_SIZE` and `PDPTE_PAGE_SIZE` are
-- not looked at. Nor are translations that the processor has kept from before.
pub translate : Vmm → (pml4 address : ℕ) → Option ℕ
translate v pml4 address =
    chain (page_table v pml4 address)
      λ pt. chain (present_entry v pt (table_index 0 address)) λ entry. some (pte_get_frame entry)

-- The four indices determine the page of the 48 translated bits.
pub same_page :
    (a b : ℕ)
    → ((k : ℕ) → k < 4 → table_index k a ≡ table_index k b)
    → a / 4096 % 2 ^ 36 ≡ b / 4096 % 2 ^ 36
same_page a b same =
    omega (
      arith,
      same 0 (omega arith),
      same 1 (omega arith),
      same 2 (omega arith),
      same 3 (omega arith),
    )

level_present :
    (v : Vmm) (t i e : ℕ) → present_entry v t i ≡ some e → level_entry v t i ≡ (some e, v)
unfolding present_entry level_entry
level_present v t i e h = ground arith

present_is :
    (v : Vmm) (t i e : ℕ)
    → present_entry v t i ≡ some e
    → (v.memory (slot t i) ≡ e) × (pte_is_present e ≡ true)
unfolding present_entry
present_is v t i e h = ground arith

-- The entries that the walk to `address` passes at the three upper levels, all present.
pub record IsWalk (v : Vmm) (pml4 address e3 e2 e1 : ℕ) : Type 0 where
  pub third : present_entry v pml4 (table_index 3 address) ≡ some e3
  pub second : present_entry v (next_table v e3) (table_index 2 address) ≡ some e2
  pub first : present_entry v (next_table v e2) (table_index 1 address) ≡ some e1

module _ {v : Vmm} {pml4 address e3 e2 e1 : ℕ} (walk : IsWalk v pml4 address e3 e2 e1) where
  -- The word that holds the last entry, and that no upper level of the walk reads.
  abbrev pub leaf : ℕ
  leaf = slot (next_table v e1) (table_index 0 address)

  abbrev pub IsSeparate : Type 0
  IsSeparate =
      (leaf ≢ slot pml4 (table_index 3 address))
      × (leaf ≢ slot (next_table v e3) (table_index 2 address))
      × (leaf ≢ slot (next_table v e2) (table_index 1 address))

  page_table-walk : page_table v pml4 address ≡ some (next_table v e1)
  unfolding page_table
  page_table-walk = rw (walk.third, walk.second, walk.first)

  map_page-walk :
      (pa : ℕ)
      → map_page v pa address pml4
        ≡ (true, map_entry v (next_table v e1) (table_index 0 address) pa)
  unfolding map_page
  map_page-walk pa = rw (
    level_present v pml4 (table_index 3 address) e3 walk.third,
    level_present v (next_table v e3) (table_index 2 address) e2 walk.second,
    level_present v (next_table v e2) (table_index 1 address) e1 walk.first,
  )

present_entry-update :
    (v : Vmm) (s x t i : ℕ)
    → s ≢ slot t i
    → present_entry (record v { memory = update v.memory s x }) t i ≡ present_entry v t i
unfolding present_entry
present_entry-update v s x t i ne = rw (==_ne s (slot t i) ne)

present_entry-update_self :
    (v : Vmm) (x t i : ℕ)
    → pte_is_present x ≡ true
    → present_entry (record v { memory = update v.memory (slot t i) x }) t i ≡ some x
unfolding present_entry
present_entry-update_self v x t i p = rw (==_refl (slot t i), p)

next_table-update :
    (v : Vmm) (s x e : ℕ)
    → next_table (record v { memory = update v.memory s x }) e ≡ next_table v e
unfolding physical_to_virtual
next_table-update v s x e = refl

map_entry_written :
    (v : Vmm) (t i pa : ℕ)
    → v.memory (slot t i) < 2 ^ 64
    → pa < 2 ^ 64
    → (x : ℕ) × (map_entry v t i pa ≡ record v { memory = update v.memory (slot t i) x })
      × (pte_is_present x ≡ true)
      × (pte_get_frame x ≡ pte_get_frame pa)
unfolding map_entry
map_entry_written v t i pa he ha = elim (Bool-cases (pte_is_present (v.memory (slot t i)))) [
  | inl old ↦ (
    pte_set_frame (v.memory (slot t i)) pa,
    rw old,
    rw (is_present_iff (pte_set_frame (v.memory (slot t i)) pa)) (
        ground
          (arith, is_present_iff (v.memory (slot t i)), bit-set_frame (v.memory (slot t i)) pa 0)),
    (get_frame-set_frame (v.memory (slot t i)) pa 0 he ha (omega arith)).0,
  )
  | inr new ↦
      let (frame, present, _) = new_entry (v.memory (slot t i)) pa he ha in
      (_, rw new, present, frame)
]

-- Where the walk to a virtual address passes present entries at the three upper levels, and the
-- last entry is none of these words, `vmm_map_page` succeeds, allocates nothing, changes that one
-- word of memory, and afterwards the processor translates the address to the frame it was given.
pub map_page_translates :
    {v : Vmm} {pml4 address e3 e2 e1 : ℕ} (pa : ℕ) (walk : IsWalk v pml4 address e3 e2 e1)
    → IsSeparate walk
    → v.memory (leaf walk) < 2 ^ 64
    → pa < 2 ^ 64
    → let (done, w) = map_page v pa address pml4 in
      (done ≡ true)
      × (translate w pml4 address ≡ some (pte_get_frame pa))
      × (w.pmm ≡ v.pmm)
      × (w.memory ≡ update v.memory (leaf walk) (w.memory (leaf walk)))
map_page_translates {v} {pml4} {address} {e3} {e2} {e1} pa walk (ne3, ne2, ne1) fits small =
    let t = next_table v e1 in
    let i = table_index 0 address in
    let (x, written, present, frame) = map_entry_written v t i pa fits small in
    rw (map_page-walk walk pa, written)
      (
        refl,
        unfold translate page_table in
            rw (
              present_entry-update v (leaf walk) x pml4 (table_index 3 address) ne3,
              walk.third,
              next_table-update v (leaf walk) x e3,
              present_entry-update v (leaf walk) x (next_table v e3) (table_index 2 address) ne2,
              walk.second,
              next_table-update v (leaf walk) x e2,
              present_entry-update v (leaf walk) x (next_table v e2) (table_index 1 address) ne1,
              walk.first,
              next_table-update v (leaf walk) x e1,
              present_entry-update_self v x t i present,
              frame,
            ),
        refl,
        rw (==_refl (leaf walk)),
      )

-- Nothing is done, or only the frame allocator is told that a block, not block 0, is free.
pub data OnlyFrees (v : Vmm) : Bool × Vmm → Type 0 where
  failed : OnlyFrees v (false, v)
  block_freed :
      (frame : ℕ) → frame ≢ 0 → OnlyFrees v (true, record v { pmm = free_block v.pmm frame })

or_fail-OnlyFrees :
    {v : Vmm} (o : Option ℕ) {rest : ℕ → Bool × Vmm}
    → ((e : ℕ) → OnlyFrees v (rest e))
    → OnlyFrees v (or_fail o v rest)
or_fail-OnlyFrees none all = failed
or_fail-OnlyFrees (some e) all = all e

free_page-OnlyFrees :
    (v : Vmm) (entry : ℕ) → let (freed, copy, w) = free_page v entry in OnlyFrees v (freed, w)
unfolding free_page
free_page-OnlyFrees v entry = elim (Bool-cases (pte_get_frame entry == 0)) [
  | inl none_there ↦ rw none_there failed
  | inr there ↦ rw there (block_freed (pte_get_frame entry) (ground (arith, there)))
]

unmap_page-OnlyFrees : (v : Vmm) (address pml4 : ℕ) → OnlyFrees v (unmap_page v address pml4)
unfolding unmap_page
unmap_page-OnlyFrees v address pml4 =
    or_fail-OnlyFrees (present_entry v pml4 (table_index 3 address)) λ e3.
      or_fail-OnlyFrees (present_entry v (next_table v e3) (table_index 2 address)) λ e2.
        or_fail-OnlyFrees (present_entry v (next_table v e2) (table_index 1 address)) λ e1.
          or_fail-OnlyFrees (present_entry v (next_table v e1) (table_index 0 address))
            λ e0. free_page-OnlyFrees v (v.memory (u64 (slot (next_table v e1) e0)))

OnlyFrees-translate :
    {v : Vmm} {r : Bool × Vmm} (root other : ℕ)
    → OnlyFrees v r
    → (r.1.memory ≡ v.memory) × (translate r.1 root other ≡ translate v root other)
unfolding translate page_table present_entry physical_to_virtual
OnlyFrees-translate root other failed = (refl, refl)
OnlyFrees-translate root other (block_freed frame ne) = (refl, refl)

-- `vmm_unmap_page` returns false and does nothing, or returns true and all that it does is one
-- `pmm_free_block`, which changes the allocator's bitmap and count, of a frame that is not 0. The words
-- of the page tables stay in either case, and so the walk from any root finds for every address what
-- it found before, the address to be unmapped too.
pub unmap_page_keeps :
    (v : Vmm) (address pml4 root other : ℕ)
    → let (done, w) = unmap_page v address pml4 in
      OnlyFrees v (done, w)
      × (w.memory ≡ v.memory)
      × (translate w root other ≡ translate v root other)
unmap_page_keeps v address pml4 root other =
    let kept = unmap_page-OnlyFrees v address pml4 in
    let (same, as_before) = OnlyFrees-translate root other kept in (kept, same, as_before)
