-- ===== src/Bin/Shell/Rounds.antt =====
-- os/bin/shell/shell.c: the loop of `shell_input_parse` by the kinds of round.
use hrishikos.Base.{
  ℕ, suc, ◌+◌, ◌%◌, ◌^◌, ◌≤◌, ◌<◌, ◌≡◌, ◌≢◌, refl, arith, true, false, some, ltb, ==_ne, u64,
}
use hrishikos.Bin.Shell.{
  Arguments, skip_delimiters, Round, next, end_argument, parse_round, finish_arguments,
  parse_rounds, go_on,
}
use hrishikos.Bin.Shell.Rows.{stored, store_lem}

pub rounds_step :
    (fuel : ℕ) (m : ℕ → ℕ) (input n : ℕ) (a : Arguments) (argv_index i : ℕ) (r : Round)
    → i < n
    → parse_round fuel m input a argv_index i ≡ some r
    → parse_rounds (suc fuel) m input n a argv_index i ≡ go_on (parse_rounds fuel m input n) r
unfolding parse_rounds
rounds_step fuel m input n a argv_index i r inside run =
    let goes : ltb i n ≡ true = ground arith in rw (goes, run) refl

pub rounds_end :
    (fuel : ℕ) (m : ℕ → ℕ) (input n : ℕ) (a : Arguments) (argv_index i : ℕ)
    → i ≡ n
    → parse_rounds (suc fuel) m input n a argv_index i ≡ finish_arguments a argv_index
unfolding parse_rounds
rounds_end fuel m input n a argv_index i over =
    let stops : ltb i n ≡ false = ground (arith, over) in rw stops refl

pub round_space :
    (fuel : ℕ) (m : ℕ → ℕ) (input : ℕ) (a : Arguments) (argv_index i j : ℕ) (r : Round)
    → m (input + i) ≡ 32
    → u64 (i + 1) ≡ i + 1
    → skip_delimiters fuel m input (i + 1) ≡ some j
    → end_argument a argv_index j ≡ some r
    → parse_round fuel m input a argv_index i ≡ some r
unfolding parse_round
round_space fuel m input a argv_index i j r space after skipped ended =
    rw (space, after, skipped) ended

pub round_character :
    (fuel : ℕ) (m : ℕ → ℕ) (input : ℕ) (a : Arguments) (argv_index i x : ℕ)
    → m (input + i) ≡ x
    → x ≢ 32
    → u64 (i + 1) ≡ i + 1
    → argv_index < 127
    → a.argc < 64
    → parse_round fuel m input a argv_index i
      ≡ some (next (stored (stored a argv_index x) (argv_index + 1) 0) (argv_index + 1) (i + 1))
unfolding parse_round
round_character fuel m input a n i x here other after short room =
    let place : ltb n 127 ≡ true = ground (arith, short) in
    let column : (n + 1) % 2 ^ 16 ≡ n + 1 = omega (arith, short) in
    rw
      (
        here,
        ==_ne x 32 other,
        place,
        column,
        after,
        store_lem a n x room (omega (arith, short)),
        store_lem (stored a n x) (n + 1) 0 room (omega (arith, short)),
      )
      refl

pub round_dropped :
    (fuel : ℕ) (m : ℕ → ℕ) (input : ℕ) (a : Arguments) (argv_index i x : ℕ)
    → m (input + i) ≡ x
    → x ≢ 32
    → u64 (i + 1) ≡ i + 1
    → 127 ≤ argv_index
    → parse_round fuel m input a argv_index i ≡ some (next a argv_index (i + 1))
unfolding parse_round
round_dropped fuel m input a n i x here other after long =
    let place : ltb n 127 ≡ false = ground (arith, long) in
    rw (here, ==_ne x 32 other, place, after) refl
