-- ===== src/Drivers/Keyboard/Buffer.antt =====
-- os/drivers/keyboard.c: the ring buffer is a queue of at most 255 codes that drops its oldest one.
use hrishikos.Base.{
  ℕ, zero, suc, ◌+◌, ◌-◌, ◌%◌, ◌^◌, ◌<◌, ◌≡◌, ◌≢◌, refl, ap, arith, true, false, List, [], ◌∷◌,
  ◌++◌, length, drop, ◌==◌, ltb, if◌then◌else◌, update, ==_ne, Bool-cases, inl, inr,
}
use hrishikos.Drivers.Keyboard.{Keyboard, keycode_base, buffer_write, buffer_read, get_keycode}

-- Both indices lie within the array.
pub record IsValid (k : Keyboard) : Type 0 where
  pub head_in : k.buffer_head < 256
  pub tail_in : k.buffer_tail < 256

-- The `n` codes from index `t` on, going round at 256.
abbrev pub window : (ℕ → ℕ) → ℕ → ℕ → List ℕ
window buffer t zero = []
window buffer t (suc n) = buffer t ∷ window buffer ((t + 1) % 256) n

abbrev pub count : Keyboard → ℕ
count k = (k.buffer_head + 256 - k.buffer_tail) % 256

abbrev pub contents : Keyboard → List ℕ
contents k = window k.buffer k.buffer_tail (count k)

-- What a writer of the queue sees.
unfoldable pub enqueue : List ℕ → ℕ → List ℕ
enqueue q c = (if length q == 255 then drop 1 q else q) ++ c ∷ []

length-window : (buffer : ℕ → ℕ) (t n : ℕ) → length (window buffer t n) ≡ n
length-window buffer t zero = refl
length-window buffer t (suc n) = ap suc (length-window buffer ((t + 1) % 256) n)

window-update :
    (buffer : ℕ → ℕ) (t n i v : ℕ)
    → t < 256
    → n < 256
    → i ≡ (t + n) % 256
    → window (update buffer i v) t (suc n) ≡ window buffer t n ++ v ∷ []
window-update buffer t zero i v ht hn e = let here : (i == t) ≡ true = ground arith in rw here
window-update buffer t (suc n) i v ht hn e =
    let other : (i == t) ≡ false = ==_ne i t (omega arith) in
    rw other (
      ap (λ r. buffer t ∷ r)
        (window-update buffer ((t + 1) % 256) n i v (omega arith) (omega arith) (omega arith)))

-- The count stays a variable here: a window of 255 codes is not to be written out.
enqueue_room :
    (buffer : ℕ → ℕ) (t n m h c : ℕ)
    → t < 256
    → n < 255
    → h ≡ (t + n) % 256
    → m ≡ suc n
    → window (update buffer h c) t m ≡ enqueue (window buffer t n) c
unfolding enqueue
enqueue_room buffer t n m h c ht hn e em =
    let room : (length (window buffer t n) == 255) ≡ false =
      rw (length-window buffer t n) (==_ne n 255 (omega arith)) in
    rw (em, room) (window-update buffer t n h c ht (omega arith) e)

enqueue_full :
    (buffer : ℕ → ℕ) (t t' n m h c : ℕ)
    → t' < 256
    → t' ≡ (t + 1) % 256
    → suc n ≡ 255
    → h ≡ (t' + n) % 256
    → m ≡ suc n
    → window (update buffer h c) t' m ≡ enqueue (window buffer t m) c
unfolding enqueue
enqueue_full buffer t t' n m h c ht et en e em =
    let full : (length (window buffer t (suc n)) == 255) ≡ true =
      rw (length-window buffer t (suc n)) (ground arith) in
    rw (em, full, ← et) (window-update buffer t' n h c ht (omega arith) e)

-- `keyboard_buffer_write` appends the code to the queue, drops the oldest of 255 codes to make
-- room, and keeps both indices within the array.
pub buffer_write-enqueue :
    (k : Keyboard) (c : ℕ)
    → IsValid k
    → (contents (buffer_write k c) ≡ enqueue (contents k) c) × IsValid (buffer_write k c)
unfolding buffer_write
buffer_write-enqueue k c v =
    let head = k.buffer_head in
    let tail = k.buffer_tail in
    elim (Bool-cases ((head + 1) % 256 == tail)) [
      | inl full ↦
          let e : (head + 1) % 256 ≡ tail = ground (arith, full) in
          let around = (tail + 1) % 256 in
          let same : ((head + 1) % 256 + 256 - around) % 256 ≡ count k = omega arith in
          rw full (
            rw same (
                enqueue_full k.buffer tail around (count k - 1) (count k) head c (omega arith) refl
                  (omega arith) (omega arith) (omega arith)),
            record { head_in = omega arith; tail_in = omega arith },
          )
      | inr room ↦
          let ne : (head + 1) % 256 ≢ tail = ground (arith, room) in
          rw room (
            enqueue_room k.buffer tail (count k) (((head + 1) % 256 + 256 - tail) % 256) head c
                (omega arith) (omega arith) (omega arith) (omega arith),
            record { head_in = omega arith; tail_in = omega arith },
          )
    ]

-- What `keyboard_get_keycode` and `keyboard_buffer_read` return for a queue.
unfoldable pub code_read : List ℕ → ℕ
code_read [] = 0xffff
code_read (c ∷ q) = c

unfoldable pub char_read : List ℕ → ℕ
char_read [] = 0xff
char_read (c ∷ q) = if ltb keycode_base c then 0xff else c % 2 ^ 8

window_first :
    (buffer : ℕ → ℕ) (t m : ℕ)
    → m ≢ 0
    → window buffer t m ≡ buffer t ∷ window buffer ((t + 1) % 256) (m - 1)
window_first buffer t zero ne = absurd (ne refl)
window_first buffer t (suc m) ne = ap (λ k. window buffer t (suc k)) (omega arith)

-- Both readers take the oldest code out of the queue and keep the indices within the array; the
-- one returns it as it is, the other as a character, and -1 where the queue is empty or the code
-- is past the characters.
pub read-contents :
    (k : Keyboard)
    → IsValid k
    → ((get_keycode k).0 ≡ code_read (contents k))
      × (contents (get_keycode k).1 ≡ drop 1 (contents k))
      × IsValid (get_keycode k).1
      × ((buffer_read k).0 ≡ char_read (contents k))
      × (contents (buffer_read k).1 ≡ drop 1 (contents k))
      × IsValid (buffer_read k).1
unfolding get_keycode buffer_read code_read char_read
read-contents k v = elim (Bool-cases (k.buffer_head == k.buffer_tail)) [
  | inl empty ↦
      let zero_count : count k ≡ 0 = ground (arith, empty) in
      rw (empty, zero_count) (refl, refl, v, refl, refl, v)
  | inr there ↦
      let ne : k.buffer_head ≢ k.buffer_tail = ground (arith, there) in
      let around = (k.buffer_tail + 1) % 256 in
      let fewer : (k.buffer_head + 256 - around) % 256 ≡ count k - 1 = omega arith in
      let moved : IsValid (record k { buffer_tail = around }) = record {
        head_in = v.head_in;
        tail_in = omega arith;
      } in
      rw (there, window_first k.buffer k.buffer_tail (count k) (omega arith))
        (elim (Bool-cases (ltb keycode_base (k.buffer k.buffer_tail))) [
          | inl far ↦ rw (far, fewer) (refl, refl, moved, refl, refl, moved)
          | inr near ↦ rw (near, fewer) (refl, refl, moved, refl, refl, moved)
        ])
]
