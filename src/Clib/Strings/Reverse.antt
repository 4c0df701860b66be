-- ===== src/Clib/Strings/Reverse.antt =====
-- os/lib/string.c: `strrev`.
use hrishikos.Base.{
  ℕ, zero, suc, ◌+◌, ◌-◌, ◌*◌, ◌%◌, ◌^◌, ◌≤◌, ◌<◌, ◌≡◌, refl, arith, some, List, length, ◌&&◌, leb,
  ltb, if◌then◌else◌, update, Bool-cases, ltb→lt, ◌∙◌, inl, inr,
}
use hrishikos.Clib.Strings.{strrev_loop, strrev}
use hrishikos.Clib.Strings.Compare.{IsString, strlen_lem}

swap_ends :
    (m : ℕ → ℕ) (lo hi a : ℕ)
    → lo < hi
    → let w = update (update m lo (m hi)) hi (m lo) in
      (if leb (lo + 1) a && leb a (hi - 1) then w (lo + hi - a) else w a)
      ≡ (if leb lo a && leb a hi then m (lo + hi - a) else m a)
swap_ends m lo hi a h = ground arith

strrev_loop_lem :
    (fuel : ℕ) (m : ℕ → ℕ) (p s e a : ℕ)
    → s < 2 ^ 16
    → e < 2 ^ 16
    → e ≤ s + 2 * fuel
    → s ≤ e + 1
    → strrev_loop fuel m p s e a
      ≡ (if leb (p + s) a && leb a (p + e) then m (p + s + (p + e) - a) else m a)
unfolding strrev_loop
strrev_loop_lem zero m p s e a hs he enough near = ground arith
strrev_loop_lem (suc fuel) m p s e a hs he enough near = elim (Bool-cases (ltb s e)) [
  | inl more ↦
      let swapped = update (update m (p + s) (m (p + e))) (p + e) (m (p + s)) in
      let up : (s + 1) % 2 ^ 16 ≡ s + 1 = ground (arith, more) in
      let down : (e + 2 ^ 16 - 1) % 2 ^ 16 ≡ e - 1 = ground (arith, more) in
      let less = ltb→lt s e more in
      let lo : p + (s + 1) ≡ p + s + 1 = omega arith in
      let hi : p + (e - 1) ≡ p + e - 1 = omega arith in
      let sum : p + s + 1 + (p + e - 1) ≡ p + s + (p + e) = omega arith in
      let rest =
        strrev_loop_lem fuel swapped p (s + 1) (e - 1) a (omega arith) (omega arith) (omega arith)
          (omega arith) in
      rw (more, up, down) (rw (lo, hi, sum) at rest ∙ swap_ends m (p + s) (p + e) a (omega arith))
  | inr done ↦ rw done (ground (arith, done))
]

-- `strrev` of a string of 1 to 65536 bytes ends; it puts every byte of the string at the mirrored
-- index and changes no other byte.
pub strrev_lem :
    (fuel : ℕ) (m : ℕ → ℕ) (p : ℕ) (xs : List ℕ)
    → IsString m p xs
    → length xs < fuel
    → 0 < length xs
    → length xs ≤ 2 ^ 16
    → (m' : ℕ → ℕ) × (strrev fuel m p ≡ some m')
      × ((a : ℕ)
          → m' a
            ≡ (if leb p a && ltb a (p + length xs) then m (p + (p + length xs - 1) - a) else m a))
unfolding strrev
strrev_lem fuel m p xs s enough some_bytes short =
    let n = length xs in
    let last : (n + 2 ^ 16 - 1) % 2 ^ 16 ≡ n - 1 = omega arith in
    (
      strrev_loop (2 ^ 15) m p 0 (n - 1),
      rw (strlen_lem fuel m p xs s enough, last) refl,
      λ a. ground (
        arith,
        strrev_loop_lem (2 ^ 15) m p 0 (n - 1) a (omega arith) (omega arith) (omega arith)
            (omega arith),
      ),
    )
