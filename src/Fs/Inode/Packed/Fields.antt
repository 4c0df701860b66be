-- ===== src/Fs/Inode/Packed/Fields.antt =====
-- os/fs/fs_inode.h: the fields of the packed inodes of a block, each in its own bytes.
use hrishikos.Base.{
  ℕ, ◌+◌, ◌-◌, ◌*◌, ◌/◌, ◌%◌, ◌^◌, ◌≤◌, ◌<◌, ◌≡◌, ◌≢◌, ap, ◌∙◌, arith, ltb, if◌then◌else◌,
}
use hrishikos.Fs.Inode.{Inode}
use hrishikos.Fs.Inode.Table.{IsStored, IsStored-trans, IsRepresentable, IsLayout}
use hrishikos.Fs.Inode.Packed.{
  digit, number, byte, words, read_inode, inode_byte, replaced_byte, packed, number-same, digit-lt,
  byte-words, number-digit, number-lt,
}

-- The same 105 bytes are the same inode.
read_inode-same :
    (f g : ℕ → ℕ) (o p : ℕ)
    → ((k : ℕ) → k < 105 → f (o + k) ≡ g (p + k))
    → IsStored (read_inode g p) (read_inode f o)
read_inode-same f g o p same = record {
  type =
      let left : o ≡ o + 0 = omega arith in
      let right : p + 0 ≡ p = omega arith in ap f left ∙ same 0 (omega arith) ∙ ap g right;
  size = field 1 (omega arith);
  block_count = field 9 (omega arith);
  blocks = λ k h. ap (λ n. if ltb k 8 then n else 0) (field (17 + 8 * k) (omega arith));
  first = field 81 (omega arith);
  second = field 89 (omega arith);
  third = field 97 (omega arith);
}
  where
    field : (d : ℕ) → d ≤ 97 → number f (o + d) 8 ≡ number g (p + d) 8
    field d h = number-same f g (o + d) (p + d) 8 λ j lt.
        let left : o + d + j ≡ o + (d + j) = omega arith in
        let right : p + (d + j) ≡ p + d + j = omega arith in
        ap f left ∙ same (d + j) (omega arith) ∙ ap g right

-- A number of 64 bits whose digits start at byte `d`.
field_read :
    (x : Inode) (v d : ℕ)
    → v < 2 ^ 64
    → ((j : ℕ) → j < 8 → inode_byte x (d + j) ≡ digit v j)
    → number (inode_byte x) d 8 ≡ v
field_read x v d fits at =
    number-same (inode_byte x) (digit v) d 0 8
      (λ j h. let bare : j ≡ 0 + j = omega arith in at j h ∙ ap (digit v) bare)
    ∙ number-digit v 8 (omega arith)

block_byte :
    (x : Inode) (k j : ℕ) → k < 8 → j < 8 → inode_byte x (17 + 8 * k + j) ≡ digit (x.blocks k) j
unfolding inode_byte
block_byte x k j hk hj =
    let which : (17 + 8 * k + j - 17) / 8 ≡ k = omega arith in
    let digit_of : (17 + 8 * k + j - 17) % 8 ≡ j = omega arith in
    rw (which, digit_of) (ground (arith, hk, hj))

-- The bytes of an inode that fits the struct are read as that inode.
read_inode-inode_byte : (x : Inode) → IsRepresentable x → IsStored x (read_inode (inode_byte x) 0)
unfolding inode_byte
read_inode-inode_byte x is = record {
  type = unfold digit in ground (arith, is.type);
  size = field_read x x.size 1 is.size (λ j h. ground (arith, h));
  block_count = field_read x x.block_count 9 is.block_count (λ j h. ground (arith, h));
  blocks = λ k h.
      let read =
        field_read x (x.blocks k) (17 + 8 * k) (is.blocks k h) (λ j hj. block_byte x k j h hj) in
      ground (arith, h, read);
  first = field_read x x.first_indirect_table 81 is.first (λ j h. ground (arith, h));
  second = field_read x x.second_indirect_table 89 is.second (λ j h. ground (arith, h));
  third = field_read x x.third_indirect_table 97 is.third (λ j h. ground (arith, h));
}

inode_byte-lt : (x : Inode) (k : ℕ) → inode_byte x k < 256
unfolding inode_byte
inode_byte-lt x k = ground (
  arith,
  digit-lt x.type 0,
  digit-lt x.size (k - 1),
  digit-lt x.block_count (k - 9),
  digit-lt (x.blocks ((k - 17) / 8)) ((k - 17) % 8),
  digit-lt x.first_indirect_table (k - 81),
  digit-lt x.second_indirect_table (k - 89),
  digit-lt x.third_indirect_table (k - 97),
)

replaced_byte-lt : (b : ℕ → ℕ) (i : ℕ) (x : Inode) (k : ℕ) → replaced_byte b i x k < 256
replaced_byte-lt b i x k =
    ground (arith, inode_byte-lt x (k - 105 * i), digit-lt (b (k / 8)) (k % 8))

byte-put :
    (b : ℕ → ℕ) (i : ℕ) (x : Inode) (k : ℕ)
    → byte (words (replaced_byte b i x)) k ≡ replaced_byte b i x k
byte-put b i x k = byte-words (replaced_byte b i x) k (replaced_byte-lt b i x)

byte-inside :
    (b : ℕ → ℕ) (i : ℕ) (x : Inode) (k : ℕ)
    → k < 105
    → replaced_byte b i x (105 * i + k) ≡ inode_byte x (0 + k)
byte-inside b i x k h =
    let within : 105 * i + k - 105 * i ≡ 0 + k = omega arith in rw within (ground (arith, h))

byte-outside :
    (b : ℕ → ℕ) (i j : ℕ) (x : Inode) (k : ℕ)
    → j ≢ i
    → k < 105
    → replaced_byte b i x (105 * j + k) ≡ byte b (105 * j + k)
byte-outside b i j x k ne h = ground (arith, ne, h)

-- The struct's layout is one that `Table` relies on, for as many inodes as the words of a block hold.
pub packed-IsLayout : (inodes count : ℕ) → 105 * inodes ≤ 8 * count → IsLayout packed inodes count
packed-IsLayout inodes count room = record {
  put_words =
      λ b i x h fits old w hw. number-lt (replaced_byte b i x) (8 * w) 8 (replaced_byte-lt b i x);
  replaced = λ b i x h fits.
      IsStored-trans x (read_inode (inode_byte x) 0) (packed.get (packed.put b i x) i)
        (read_inode-inode_byte x fits)
        (read_inode-same (byte (packed.put b i x)) (inode_byte x) (105 * i) 0
          (λ k hk. byte-put b i x (105 * i + k) ∙ byte-inside b i x k hk));
  others = λ b i j x hi hj ne.
      read_inode-same (byte (packed.put b i x)) (byte b) (105 * j) (105 * j)
        (λ k hk. byte-put b i x (105 * j + k) ∙ byte-outside b i j x k ne hk);
  local = λ b c i h same.
      read_inode-same (byte c) (byte b) (105 * i) (105 * i)
        (λ k hk. ap (λ w. digit w ((105 * i + k) % 8)) (same ((105 * i + k) / 8) (omega arith)));
}
