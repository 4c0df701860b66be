-- ===== src/Mm/Heap/Chain.antt =====
-- os/mm/heap.c: the free lists as linked lists of blocks, and what adding and deleting do to them.
use hrishikos.Base.{
  ℕ, zero, suc, ◌+◌, ◌≤◌, ◌<◌, ◌≡◌, ◌≢◌, refl, arith, ◌==◌, ltb, if◌then◌else◌, Bool-cases, inl,
  inr, false, u8, some, ap, sym, subst, ◌∙◌, List, [], ◌∷◌, ◌++◌, length, update, ==_ne, ==_refl,
}
use hrishikos.Mm.Heap.{
  Heap, max_order, add_block, del_block, del_block_loop, list_fuel, word_at, with_word, with_head,
}

abbrev pub NotIn : ℕ → List ℕ → Type 0
NotIn b [] = Unit {0}
NotIn b (x ∷ xs) = (b ≢ x) × NotIn b xs

abbrev pub Distinct : List ℕ → Type 0
Distinct [] = Unit {0}
Distinct (x ∷ xs) = NotIn x xs × Distinct xs

-- From `p` the first words lead through the blocks `xs` to the end.
abbrev pub IsChain : (ℕ → ℕ) → ℕ → List ℕ → Type 0
IsChain m p [] = p ≡ 0
IsChain m p (x ∷ xs) = (p ≡ x) × (x ≢ 0) × IsChain m (m x) xs

-- The list of order `o` holds the blocks `xs`.
abbrev pub IsList : Heap → ℕ → List ℕ → Type 0
IsList h o xs = IsChain h.vm.memory (h.free_list o) xs

-- A word outside the blocks of a list can change.
pub frame :
    (m : ℕ → ℕ) (a v p : ℕ) (xs : List ℕ)
    → NotIn a xs
    → IsChain m p xs
    → IsChain (update m a v) p xs
frame m a v p [] out c = c
frame m a v p (x ∷ xs) (ne, out) (e, pos, rest) =
    (e, pos, rw (==_ne a x ne) (frame m a v (m x) xs out rest))

NotIn-middle :
    (a b : ℕ) (pre post : List ℕ) → NotIn a (pre ++ b ∷ post) → (a ≢ b) × NotIn a (pre ++ post)
NotIn-middle a b [] post out = out
NotIn-middle a b (x ∷ pre) post (ne, out) =
    let (here, rest) = NotIn-middle a b pre post out in (here, (ne, rest))

add_block-small :
    (h : Heap) (o b : ℕ) → o ≤ 12 → add_block h o b ≡ with_head (with_word h b (h.free_list o)) o b
unfolding add_block
add_block-small h o b small = let past : ltb max_order o ≡ false = ground arith in rw past

pub add_block-front :
    (h : Heap) (o b : ℕ) (xs : List ℕ)
    → o ≤ 12
    → b ≢ 0
    → NotIn b xs
    → IsList h o xs
    → IsList (add_block h o b) o (b ∷ xs)
add_block-front h o b xs small pos out c =
    subst (λ g. IsList g o (b ∷ xs)) (sym (add_block-small h o b small))
      (
        rw (==_refl o),
        pos,
        rw (==_refl b) (frame h.vm.memory b (h.free_list o) (h.free_list o) xs out c),
      )

pub add_block-other :
    (h : Heap) (o b k : ℕ) (ys : List ℕ)
    → o ≤ 12
    → NotIn b ys
    → k ≢ o
    → IsList h k ys
    → IsList (add_block h o b) k ys
add_block-other h o b k ys small out ne c =
    subst (λ g. IsList g k ys) (sym (add_block-small h o b small))
      (rw (==_ne o k (λ e. ne (sym e)))
        (frame h.vm.memory b (h.free_list o) (h.free_list k) ys out c))

-- `heap_add_block` of a block that is in none of the lists at hand puts it in front of the list of
-- its order, and leaves the list of any other order as it is.
pub add_block-IsList :
    (h : Heap) (o b k : ℕ) (xs ys : List ℕ)
    → o ≤ 12
    → b ≢ 0
    → NotIn b xs
    → NotIn b ys
    → k ≢ o
    → IsList h o xs
    → IsList h k ys
    → IsList (add_block h o b) o (b ∷ xs) × IsList (add_block h o b) k ys
add_block-IsList h o b k xs ys small pos out out' ne c d =
    (add_block-front h o b xs small pos out c, add_block-other h o b k ys small out' ne d)

last : ℕ → List ℕ → ℕ
last x [] = x
last x (y ∷ ys) = last y ys

-- The heap after the block behind `pre` is unlinked; `previous` stands before `pre`.
unlinked : Heap → (o b previous list_index : ℕ) → List ℕ → Heap
unlinked h o b previous list_index [] =
    if list_index == 0 then with_head h o (word_at h b) else with_word h previous (word_at h b)
unlinked h o b previous list_index (x ∷ pre) = with_word h (last x pre) (word_at h b)

-- A block fewer than 256 places from the head is found, whatever the links behind it are.
del_block_loop-unlinked :
    (fuel : ℕ) (h : Heap) (o b current previous list_index : ℕ) (pre post : List ℕ)
    → IsChain h.vm.memory current (pre ++ b ∷ post)
    → NotIn b pre
    → length pre < fuel
    → list_index + length pre < 256
    → del_block_loop fuel h o b current previous list_index
      ≡ some (unlinked h o b previous list_index pre)
unfolding del_block_loop unlinked
del_block_loop-unlinked zero h o b current previous i pre post c out enough near =
    absurd (omega arith)
del_block_loop-unlinked (suc fuel) h o b current previous i [] post (e, pos, c) out enough near =
    rw (e, ==_ne b 0 pos, ==_refl b)
      (elim (Bool-cases (i == 0)) [
        | inl head ↦ rw head
        | inr inner ↦ rw inner (elim (Bool-cases (word_at h b == 0)) [
          | inl end ↦ rw end (ap (λ w. some (with_word h previous w)) (ground arith))
          | inr more ↦ rw more
        ])
      ])
del_block_loop-unlinked (suc fuel) h o b current previous i (x ∷ pre) post (e, pos, c) (ne, out)
      enough near =
    rw (e, ==_ne x 0 pos, ==_ne b x ne)
      (del_block_loop-unlinked fuel h o b (word_at h x) x (u8 (i + 1)) pre post c out (omega arith)
          (omega arith)
        ∙ same_unlinked pre)
  where
    same_unlinked :
        (ys : List ℕ)
        → some (unlinked h o b x (u8 (i + 1)) ys) ≡ some (with_word h (last x ys) (word_at h b))
    same_unlinked [] =
        let inner : (u8 (i + 1) == 0) ≡ false = ==_ne (u8 (i + 1)) 0 (omega arith) in
        unfold last in rw inner
    same_unlinked (y ∷ ys) = unfold last in refl

NotIn-last : (a x : ℕ) (xs : List ℕ) → NotIn a (x ∷ xs) → a ≢ last x xs
unfolding last
NotIn-last a x [] (ne, out) = ne
NotIn-last a x (y ∷ ys) (ne, out) = NotIn-last a y ys out

NotIn-append_left : (a : ℕ) (xs ys : List ℕ) → NotIn a (xs ++ ys) → NotIn a xs
NotIn-append_left a [] ys out = tt
NotIn-append_left a (x ∷ xs) ys (ne, out) = (ne, NotIn-append_left a xs ys out)

-- Linking the last block before `b` to the one behind it takes `b` out.
IsChain-cut :
    (m : ℕ → ℕ) (p b x : ℕ) (pre post : List ℕ)
    → IsChain m p (x ∷ pre ++ b ∷ post)
    → Distinct (x ∷ pre ++ b ∷ post)
    → IsChain (update m (last x pre) (m b)) p (x ∷ pre ++ post)
unfolding last
IsChain-cut m p b x [] post (e, pos, (eb, posb, c)) ((nb, out), (outb, d)) =
    (e, pos, rw (==_refl x) (frame m x (m b) (m b) post out c))
IsChain-cut m p b x (y ∷ pre) post (e, pos, c) (out, d) =
    let same : (last y pre == x) ≡ false =
      ==_ne (last y pre) x
        (λ q. NotIn-last x y pre (NotIn-append_left x (y ∷ pre) (b ∷ post) out) (sym q)) in
    (e, pos, rw same (IsChain-cut m (m x) b y pre post c d))

abbrev pub Apart : List ℕ → List ℕ → Type 0
Apart [] ys = Unit {0}
Apart (x ∷ xs) ys = NotIn x ys × Apart xs ys

Apart-last : (x : ℕ) (pre rest ys : List ℕ) → Apart (x ∷ pre ++ rest) ys → NotIn (last x pre) ys
unfolding last
Apart-last x [] rest ys (out, apart) = out
Apart-last x (y ∷ pre) rest ys (out, apart) = Apart-last y pre rest ys apart

unlinked-IsList :
    (h : Heap) (o b k : ℕ) (pre post ys : List ℕ)
    → k ≢ o
    → IsList h o (pre ++ b ∷ post)
    → Distinct (pre ++ b ∷ post)
    → Apart (pre ++ b ∷ post) ys
    → IsList h k ys
    → IsList (unlinked h o b 0 0 pre) o (pre ++ post) × IsList (unlinked h o b 0 0 pre) k ys
unfolding unlinked
unlinked-IsList h o b k [] post ys ne (e, pos, c) d apart other =
    (rw (==_refl o) c, rw (==_ne o k (λ q. ne (sym q))) other)
unlinked-IsList h o b k (x ∷ pre) post ys ne c d apart other = (
  IsChain-cut h.vm.memory (h.free_list o) b x pre post c d,
  frame h.vm.memory (last x pre) (word_at h b) (h.free_list k) ys
      (Apart-last x pre (b ∷ post) ys apart) other,
)

NotIn-before : (b : ℕ) (pre post : List ℕ) → Distinct (pre ++ b ∷ post) → NotIn b pre
NotIn-before b [] post d = tt
NotIn-before b (x ∷ pre) post (out, d) =
    ((λ e. (NotIn-middle x b pre post out).0 (sym e)), NotIn-before b pre post d)

-- `heap_del_block` takes a block that stands fewer than 256 places from the head of its list out
-- of that list, keeps the order of the others, and leaves the list of any other order, whose
-- blocks are others, as it is.
pub del_block-IsList :
    (h : Heap) (o b k : ℕ) (pre post ys : List ℕ)
    → o ≤ 12
    → length pre < 256
    → k ≢ o
    → IsList h o (pre ++ b ∷ post)
    → Distinct (pre ++ b ∷ post)
    → Apart (pre ++ b ∷ post) ys
    → IsList h k ys
    → (h' : Heap) × (del_block h o b ≡ some h') × IsList h' o (pre ++ post) × IsList h' k ys
unfolding del_block
del_block-IsList h o b k pre post ys small near ne c d apart other =
    let past : ltb max_order o ≡ false = ground arith in
    let (own, kept) = unlinked-IsList h o b k pre post ys ne c d apart other in
    (
      unlinked h o b 0 0 pre,
      rw past (
          del_block_loop-unlinked list_fuel h o b (h.free_list o) 0 0 pre post c
            (NotIn-before b pre post d) (omega arith) (omega arith)),
      own,
      kept,
    )
