-- ===== src/Bin/Shell/Parse.antt =====
-- os/bin/shell/shell.c: `shell_input_parse` against the words of the line.
use hrishikos.Base.{
  ℕ, zero, suc, ◌+◌, ◌^◌, ◌<◌, ◌≡◌, refl, arith, ap, subst, ◌∙◌, Bool, some, List, [], ◌∷◌, ◌++◌,
  length, append_assoc, ltb, leb, if◌then◌else◌, ==_refl, ==_ne, inl, inr, eq-cases, Bool-cases,
  update, u64,
}
use hrishikos.Clib.Strings.Compare.{IsString, strlen_lem}
use hrishikos.Bin.Shell.{
  Arguments, set_row, clear_rows, skip_delimiters, returned, next, end_argument, parse_rounds,
  input_parse,
}
use hrishikos.Bin.Shell.Words.{words, words_from, with_word, drop_spaces, words-drop_spaces}
use hrishikos.Bin.Shell.Rows.{
  IsTable, IsParsing, IsParsed, stored, IsParsing-character, IsParsing-dropped, set_row_ne,
}
use hrishikos.Bin.Shell.Steps.{
  IsRest, IsRest-tail, skip_delimiters_lem, Parses, counted, end_argument-none, end_argument-some,
  counted-IsParsed, counted-IsParsing, finish-Parses,
}
use hrishikos.Bin.Shell.Rounds.{
  rounds_step, rounds_end, round_space, round_character, round_dropped,
}

-- The loop on what is left of the line.
abbrev Loops : (fuel : ℕ) → Type 0
Loops fuel =
    (m : ℕ → ℕ) (input n : ℕ) (a : Arguments) (argv_index i : ℕ) (done : List (List ℕ))
    (word rest : List ℕ)
    → IsRest m input n i rest
    → n < 2 ^ 64
    → length rest < fuel
    → IsParsing a argv_index done word
    → Parses (parse_rounds fuel m input n a argv_index i) (done ++ words_from word rest)

-- A round at a delimiter, of which `j` is the next character that is none.
space-Parses :
    (fuel : ℕ)
    → Loops fuel
    → (m : ℕ → ℕ) (input n : ℕ) (a : Arguments) (argv_index i j : ℕ) (done : List (List ℕ))
      (word rest : List ℕ)
    → i < n
    → m (input + i) ≡ 32
    → u64 (i + 1) ≡ i + 1
    → skip_delimiters fuel m input (i + 1) ≡ some j
    → IsRest m input n j rest
    → n < 2 ^ 64
    → length rest < fuel
    → IsParsing a argv_index done word
    → Parses
        (parse_rounds (suc fuel) m input n a argv_index i)
        (done ++ with_word word (words rest))
space-Parses fuel loop m input n a k i j done [] rest inside space after skipped r small enough p =
    let nothing : k ≡ 0 = omega (arith, p.column) in
    let (b, run, parsed) = loop m input n a k j done [] rest r small enough p in
    (
      b,
      rounds_step fuel m input n a k i (next a k j) inside (
            round_space fuel m input a k i j (next a k j) space after skipped
              (rw nothing (end_argument-none a j)))
          ∙ run,
      parsed,
    )
space-Parses fuel loop m input n a k i j done (w ∷ word) rest inside space after skipped r small
      enough p =
    elim (Bool-cases (leb 64 (a.argc + 1))) [
      | inl full ↦ (
        counted a k,
        rounds_step fuel m input n a k i (returned (counted a k)) inside (
            round_space fuel m input a k i j (returned (counted a k)) space after skipped (
              ended
              ∙ ap
                  (λ (t : Bool).
                    some (if t then returned (counted a k) else next (counted a k) 0 j))
                  full)),
        counted-IsParsed a k done (words rest) (w ∷ word) p (inr (ground (arith, full, count))),
      )
      | inr free ↦
          let (b, run, parsed) =
            loop m input n (counted a k) 0 j (done ++ ((w ∷ word) ∷ [])) [] rest r small enough
              (counted-IsParsing a k done (w ∷ word) p (ground (arith, free, count))) in
          (
            b,
            rounds_step fuel m input n a k i (next (counted a k) 0 j) inside (
                  round_space fuel m input a k i j (next (counted a k) 0 j) space after skipped (
                    ended
                    ∙ ap
                        (λ (t : Bool).
                          some (if t then returned (counted a k) else next (counted a k) 0 j))
                        free))
                ∙ run,
            subst (λ ws. IsParsed ws b) (append_assoc done ((w ∷ word) ∷ []) (words rest)) parsed,
          )
    ]
  where
    count : a.argc ≡ length done
    count = p.count

    ended :
        end_argument a k j
        ≡ some (if leb 64 (a.argc + 1) then returned (counted a k) else next (counted a k) 0 j)
    ended =
        end_argument-some a k j (omega (arith, p.column)) (omega (arith, p.column))
          (omega (arith, p.count, p.room))

parse_rounds-Parses : (fuel : ℕ) → Loops fuel
parse_rounds-Parses zero m input n a k i done word rest r small enough p = absurd (omega arith)
parse_rounds-Parses (suc fuel) m input n a k i done word [] (s, ends) small enough p =
    let (b, run, parsed) = finish-Parses a k done word p in
    (b, rounds_end fuel m input n a k i (omega (arith, ends)) ∙ run, parsed)
parse_rounds-Parses (suc fuel) m input n a k i done word (x ∷ rest) ((e, ne, s), ends) small enough
      p =
    let after : u64 (i + 1) ≡ i + 1 = omega (arith, ends) in
    let inside : i < n = omega (arith, ends) in
    let tail = IsRest-tail m input n i x rest ((e, ne, s), ends) in
    elim (eq-cases x 32) [
      | inl space ↦
          let (j, skipped, there, less) =
            skip_delimiters_lem fuel m input n (i + 1) rest tail small (omega arith) in
          rw space (
            subst
              (λ ws. Parses (parse_rounds (suc fuel) m input n a k i) (done ++ with_word word ws))
              (words-drop_spaces rest)
              (space-Parses fuel (parse_rounds-Parses fuel) m input n a k i j done word
                (drop_spaces rest) inside (e ∙ space) after skipped there small
                (omega (arith, less)) p))
      | inr other ↦ elim (Bool-cases (ltb (length word) 127)) [
        | inl short ↦
            let column : k < 127 = ground (arith, p.column, short) in
            let a' = stored (stored a k x) (k + 1) 0 in
            let (b, run, parsed) =
              parse_rounds-Parses fuel m input n a' (k + 1) (i + 1) done (word ++ (x ∷ [])) rest
                tail small (omega arith)
                (IsParsing-character a k x done word p (ground (arith, short)) ne) in
            rw (==_ne x 32 other) (
              b,
              rounds_step fuel m input n a k i (next a' (k + 1) (i + 1)) inside (
                    round_character fuel m input a k i x e other after column
                      (omega (arith, p.count, p.room)))
                  ∙ run,
              parsed,
            )
        | inr long ↦
            let (b, run, parsed) =
              parse_rounds-Parses fuel m input n a k (i + 1) done (word ++ (x ∷ [])) rest tail small
                (omega arith) (IsParsing-dropped a k x done word p (ground (arith, long))) in
            rw (==_ne x 32 other) (
              b,
              rounds_step fuel m input n a k i (next a k (i + 1)) inside (
                    round_dropped fuel m input a k i x e other after
                      (ground (arith, p.column, long)))
                  ∙ run,
              parsed,
            )
      ]
    ]

clear_rows_lem :
    (left : ℕ) (argv : ℕ → ℕ → ℕ) (i j : ℕ)
    → ((k : ℕ) → k < i → argv k 0 ≡ 0)
    → j < i + left
    → clear_rows left argv i j 0 ≡ 0
unfolding clear_rows
clear_rows_lem zero argv i j cleared inside = cleared j (omega arith)
clear_rows_lem (suc left) argv i j cleared inside =
    clear_rows_lem left (set_row argv i (update (argv i) 0 0)) (i + 1) j
      (λ k below. elim (eq-cases k i) [
        | inl here ↦ rw (here, ==_refl i) refl
        | inr off ↦
            ap (λ (row : ℕ → ℕ). row 0) (set_row_ne argv i k (update (argv i) 0 0) off)
            ∙ cleared k (omega arith)
      ])
      (omega arith)

-- `shell_input_parse` of a line that ends within the fuel returns, without a store outside the array:
-- the arguments are the words of the line, at most the first 64 of them, each of them cut at 127
-- characters, and behind the last one the array holds empty strings.
pub input_parse-IsParsed :
    (fuel : ℕ) (m : ℕ → ℕ) (garbage : ℕ → ℕ → ℕ) (input : ℕ) (line : List ℕ)
    → IsString m input line
    → length line < fuel
    → length line < 2 ^ 64
    → (b : Arguments) × (input_parse fuel m garbage input ≡ some b) × IsParsed (words line) b
unfolding input_parse
input_parse-IsParsed fuel m garbage input line s enough small =
    let n = length line in
    let here : input ≡ input + 0 = omega arith in
    let start = subst (λ p. IsString m p line) here s in
    let (i, skipped, there, less) =
      skip_delimiters_lem fuel m input n 0 line (start, omega arith) small enough in
    let a : Arguments = record { argc = 0; argv = clear_rows 64 garbage 0 } in
    let (b, run, parsed) =
      parse_rounds-Parses fuel m input n a 0 i [] [] (drop_spaces line) there small
        (omega (arith, less))
        (record { count = refl; room = omega arith; column = omega arith; table = table }) in
    (
      b,
      rw (skipped, strlen_lem fuel m input line s enough) run,
      subst (λ ws. IsParsed ws b) (words-drop_spaces line) parsed,
    )
  where
    table : IsTable (clear_rows 64 garbage 0) ([] ∷ [])
    table zero inside =
        clear_rows_lem 64 garbage 0 0 (λ k below. absurd (omega arith)) (omega arith)
    table (suc j) inside =
        clear_rows_lem 64 garbage 0 (suc j) (λ k below. absurd (omega arith)) (omega arith)
