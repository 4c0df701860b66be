-- ===== src/Fs/Inode/Packed.antt =====
-- os/fs/fs_inode.h: the struct `fs_inode_t` as the compiler lays it out, packed and with the lowest byte first:
-- 105 bytes, of which byte 0 is the type, and the 64-bit numbers start at 1, 9, 17 (eight blocks), 81,
-- 89 and 97. A block of the disk is a function to its 64-bit words.
pub mod Fields
use hrishikos.Base.{
  ℕ, zero, suc, ◌+◌, ◌-◌, ◌*◌, ◌/◌, ◌%◌, ◌^◌, ◌≤◌, ◌<◌, ◌≡◌, ◌≢◌, refl, sym, ap, ◌∙◌, arith, ◌&&◌,
  ltb, leb, if◌then◌else◌,
}
use native.Mathlib.Nat.{pow-suc, mod-lt}
use hrishikos.Fs.Inode.{Inode, Layout}
use hrishikos.Fs.Inode.Table.{IsStored, IsRepresentable, IsLayout}

unfoldable pub digit : (v j : ℕ) → ℕ
digit v zero = v % 256
digit v (suc j) = digit (v / 256) j

-- The number in `n` bytes of `f` from `o` on.
unfoldable pub number : (f : ℕ → ℕ) (o n : ℕ) → ℕ
number f o zero = 0
number f o (suc n) = f o + 256 * number f (o + 1) n

abbrev pub byte : (ℕ → ℕ) → ℕ → ℕ
byte b k = digit (b (k / 8)) (k % 8)

abbrev pub words : (ℕ → ℕ) → ℕ → ℕ
words f w = number f (8 * w) 8

digit-number :
    (f : ℕ → ℕ) (o n j : ℕ) → ((k : ℕ) → f k < 256) → j < n → digit (number f o n) j ≡ f (o + j)
unfolding digit number
digit-number f o zero j small h = absurd (omega arith)
digit-number f o (suc n) zero small h =
    let here : o + 0 ≡ o = omega arith in omega (arith, small o, ap f here)
digit-number f o (suc n) (suc j) small h =
    let rest : (f o + 256 * number f (o + 1) n) / 256 ≡ number f (o + 1) n =
      omega (arith, small o) in
    let shift : o + 1 + j ≡ o + suc j = omega arith in
    rw rest (digit-number f (o + 1) n j small (omega arith) ∙ ap f shift)

pub number-same :
    (f g : ℕ → ℕ) (o p n : ℕ)
    → ((j : ℕ) → j < n → f (o + j) ≡ g (p + j))
    → number f o n ≡ number g p n
unfolding number
number-same f g o p zero same = refl
number-same f g o p (suc n) same =
    let here : o ≡ o + 0 = omega arith in
    let there : p + 0 ≡ p = omega arith in
    let first : f o ≡ g p = ap f here ∙ same 0 (omega arith) ∙ ap g there in
    let next : (j : ℕ) → j < n → f (o + 1 + j) ≡ g (p + 1 + j) = λ j h.
      let left : o + 1 + j ≡ o + (j + 1) = omega arith in
      let right : p + (j + 1) ≡ p + 1 + j = omega arith in
      ap f left ∙ same (j + 1) (omega arith) ∙ ap g right in
    omega (arith, first, number-same f g (o + 1) (p + 1) n next)

pub number-digit : (v n : ℕ) → v < 256 ^ n → number (digit v) 0 n ≡ v
unfolding number digit
number-digit v zero h = omega arith
number-digit v (suc n) h =
    let shifted : number (digit v) 1 n ≡ number (digit (v / 256)) 0 n =
      number-same (digit v) (digit (v / 256)) 1 0 n (λ j lt. later j) in
    omega (arith, shifted, number-digit (v / 256) n (omega (arith, pow-suc 256 n)))
  where
    later : (j : ℕ) → digit v (1 + j) ≡ digit (v / 256) (0 + j)
    later j =
        let succ : 1 + j ≡ suc j = omega arith in
        let none_more : j ≡ 0 + j = omega arith in
        ap (digit v) succ ∙ ap (digit (v / 256)) none_more

pub digit-lt : (v j : ℕ) → digit v j < 256
unfolding digit
digit-lt v zero = omega arith
digit-lt v (suc j) = digit-lt (v / 256) j

pub number-lt : (f : ℕ → ℕ) (o n : ℕ) → ((k : ℕ) → f k < 256) → number f o n < 256 ^ n
unfolding number
number-lt f o zero small = omega arith
number-lt f o (suc n) small = omega (arith, small o, number-lt f (o + 1) n small, pow-suc 256 n)

pub byte-words : (f : ℕ → ℕ) (k : ℕ) → ((i : ℕ) → f i < 256) → byte (words f) k ≡ f k
byte-words f k small =
    let whole : 8 * (k / 8) + k % 8 ≡ k = omega arith in
    digit-number f (8 * (k / 8)) 8 (k % 8) small (omega arith) ∙ ap f whole

-- The inode in the 105 bytes of `f` from `o` on.
abbrev pub read_inode : (f : ℕ → ℕ) (o : ℕ) → Inode
read_inode f o = record {
  type = f o;
  size = number f (o + 1) 8;
  block_count = number f (o + 9) 8;
  blocks = λ k. if ltb k 8 then number f (o + (17 + 8 * k)) 8 else 0;
  first_indirect_table = number f (o + 81) 8;
  second_indirect_table = number f (o + 89) 8;
  third_indirect_table = number f (o + 97) 8;
}

-- Byte `k` of an inode.
unfoldable pub inode_byte : Inode → (k : ℕ) → ℕ
inode_byte x k =
    if ltb k 1
    then digit x.type 0
    else if ltb k 9
    then digit x.size (k - 1)
    else if ltb k 17
    then digit x.block_count (k - 9)
    else if ltb k 81
    then digit (x.blocks ((k - 17) / 8)) ((k - 17) % 8)
    else if ltb k 89
    then digit x.first_indirect_table (k - 81)
    else if ltb k 97
    then digit x.second_indirect_table (k - 89)
    else digit x.third_indirect_table (k - 97)

-- The bytes of a block in which the inode at `i` is replaced.
abbrev pub replaced_byte : (ℕ → ℕ) → (i : ℕ) → Inode → ℕ → ℕ
replaced_byte b i x k =
    if leb (105 * i) k && ltb k (105 * i + 105) then inode_byte x (k - 105 * i) else byte b k

abbrev pub packed : Layout
packed = record {
  get = λ b i. read_inode (byte b) (105 * i);
  put = λ b i x. words (replaced_byte b i x);
}
