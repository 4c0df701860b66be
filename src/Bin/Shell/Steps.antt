-- ===== src/Bin/Shell/Steps.antt =====
-- os/bin/shell/shell.c: the parts of a round of `shell_input_parse`.
use hrishikos.Base.{
  ℕ, zero, suc, ◌+◌, ◌^◌, ◌≤◌, ◌<◌, ◌≡◌, ◌≢◌, ◌⊎◌, refl, arith, ap, sym, subst, ◌∙◌, true, Option,
  some, List, [], ◌∷◌, ◌++◌, length, take, get_or, append_assoc, append-nil, length-append, ltb,
  leb, if◌then◌else◌, ==_ne, inl, inr, eq-cases, Bool-cases, u64, ltb→lt,
}
use hrishikos.Clib.Strings.Compare.{IsString}
use hrishikos.Bin.Shell.{Arguments, skip_delimiters, returned, next, end_argument, finish_arguments}
use hrishikos.Bin.Shell.Words.{words_from, drop_spaces, get_or-append_left, get_or_out}
use hrishikos.Bin.Shell.Rows.{IsParsing, IsParsed, stored, store_lem, table-ended, get_or_nil}

skip_step :
    (fuel : ℕ) (m : ℕ → ℕ) (input i : ℕ)
    → m (input + i) ≡ 32
    → i + 1 < 2 ^ 64
    → skip_delimiters (suc fuel) m input i ≡ skip_delimiters fuel m input (i + 1)
unfolding skip_delimiters
skip_step fuel m input i here small =
    let next_i : u64 (i + 1) ≡ i + 1 = omega arith in rw (here, next_i) refl

skip_stop :
    (fuel : ℕ) (m : ℕ → ℕ) (input i : ℕ)
    → m (input + i) ≢ 32
    → skip_delimiters (suc fuel) m input i ≡ some i
unfolding skip_delimiters
skip_stop fuel m input i ne = rw (==_ne (m (input + i)) 32 ne) refl

-- `rest` stands at index `i` of the line.
abbrev pub IsRest : (ℕ → ℕ) → (input length i : ℕ) → List ℕ → Type 0
IsRest m input n i rest = IsString m (input + i) rest × (i + length rest ≡ n)

pub IsRest-tail :
    (m : ℕ → ℕ) (input n i x : ℕ) (rest : List ℕ)
    → IsRest m input n i (x ∷ rest)
    → IsRest m input n (i + 1) rest
IsRest-tail m input n i x rest ((e, ne, s), ends) =
    (subst (λ p. IsString m p rest) (omega arith) s, omega (arith, ends))

-- The loop over the delimiters comes to the first character that is none.
pub skip_delimiters_lem :
    (fuel : ℕ) (m : ℕ → ℕ) (input n i : ℕ) (rest : List ℕ)
    → IsRest m input n i rest
    → n < 2 ^ 64
    → length rest < fuel
    → (j : ℕ) × (skip_delimiters fuel m input i ≡ some j)
      × IsRest m input n j (drop_spaces rest)
      × (length (drop_spaces rest) ≤ length rest)
skip_delimiters_lem zero m input n i rest r small enough = absurd (omega arith)
skip_delimiters_lem (suc fuel) m input n i [] (s, ends) small enough =
    (i, skip_stop fuel m input i (λ e. absurd (omega (arith, s, e))), (s, ends), omega arith)
skip_delimiters_lem (suc fuel) m input n i (x ∷ rest) ((e, ne, s), ends) small enough =
    elim (eq-cases x 32) [
      | inl space ↦
          let (j, run, there, less) =
            skip_delimiters_lem fuel m input n (i + 1) rest
              (IsRest-tail m input n i x rest ((e, ne, s), ends)) small (omega arith) in
          rw space (
            j,
            skip_step fuel m input i (e ∙ space) (omega (arith, ends)) ∙ run,
            there,
            omega (arith, less),
          )
      | inr other ↦
          rw (==_ne x 32 other)
            (i, skip_stop fuel m input i (λ f. other (sym e ∙ f)), ((e, ne, s), ends), omega arith)
    ]

-- The call returns the words.
abbrev pub Parses : Option Arguments → List (List ℕ) → Type 0
Parses o ws = (b : Arguments) × (o ≡ some b) × IsParsed ws b

abbrev pub counted : Arguments → (argv_index : ℕ) → Arguments
counted a argv_index = record (stored a argv_index 0) { argc = a.argc + 1 }

finish-none : (a : Arguments) → finish_arguments a 0 ≡ some a
unfolding finish_arguments
finish-none a = refl

finish-some :
    (a : Arguments) (n : ℕ)
    → 0 < n
    → n < 128
    → a.argc < 64
    → finish_arguments a n ≡ some (counted a n)
unfolding finish_arguments
finish-some a n positive inside room =
    let more : ltb 0 n ≡ true = ground arith in rw (more, store_lem a n 0 room inside) refl

pub end_argument-none : (a : Arguments) (j : ℕ) → end_argument a 0 j ≡ some (next a 0 j)
unfolding end_argument
end_argument-none a j = refl

pub end_argument-some :
    (a : Arguments) (n j : ℕ)
    → 0 < n
    → n < 128
    → a.argc < 64
    → end_argument a n j
      ≡ some (if leb 64 (a.argc + 1) then returned (counted a n) else next (counted a n) 0 j)
unfolding end_argument
end_argument-some a n j positive inside room =
    let more : ltb 0 n ≡ true = ground arith in rw (more, store_lem a n 0 room inside) refl

pub counted-IsParsed :
    (a : Arguments) (n : ℕ) (done ws : List (List ℕ)) (word : List ℕ)
    → IsParsing a n done word
    → (length ws ≡ 0) ⊎ (64 ≤ length done + 1)
    → IsParsed (done ++ (word ∷ ws)) (counted a n)
counted-IsParsed a n done ws word p enough =
    let all = length-append done (word ∷ ws) in
    let l = length-append done (word ∷ []) in
    let c = p.count in
    let room = p.room in
    let old = table-ended a n done word p in
    record {
      count = ground (arith, all, c, room, enough);
      table = λ j inside. elim (Bool-cases (ltb j (length (done ++ (word ∷ []))))) [
        | inl below ↦
            subst (λ w. IsString ((counted a n).argv j) 0 (take 127 w))
              (sym (
                  get_or-append_left (done ++ (word ∷ [])) ws j []
                    (ltb→lt j (length (done ++ (word ∷ []))) below))
                ∙ ap (λ l. get_or l j []) (append_assoc done (word ∷ []) ws))
              (old j inside)
        | inr above ↦
            let out : length (done ++ (word ∷ [])) ≤ j = ground (arith, above) in
            subst (λ w. IsString ((counted a n).argv j) 0 (take 127 w))
              (get_or_out (done ++ (word ∷ [])) j [] out
                ∙ sym (
                    get_or_out (done ++ (word ∷ ws)) j []
                      (ground (arith, all, l, out, enough, inside))))
              (old j inside)
      ];
    }

pub counted-IsParsing :
    (a : Arguments) (n : ℕ) (done : List (List ℕ)) (word : List ℕ)
    → IsParsing a n done word
    → length done + 1 < 64
    → IsParsing (counted a n) 0 (done ++ (word ∷ [])) []
counted-IsParsing a n done word p room =
    let l = length-append done (word ∷ []) in
    record {
      count = omega (arith, l, p.count);
      room = omega (arith, l);
      column = omega arith;
      table = λ j inside.
          subst (λ w. IsString ((counted a n).argv j) 0 (take 127 w))
            (sym (get_or_nil (done ++ (word ∷ [])) j)) (table-ended a n done word p j inside);
    }

pub finish-Parses :
    (a : Arguments) (n : ℕ) (done : List (List ℕ)) (word : List ℕ)
    → IsParsing a n done word
    → Parses (finish_arguments a n) (done ++ words_from word [])
finish-Parses a n done [] p =
    let none_read : n ≡ 0 = omega (arith, p.column) in
    rw (none_read, append-nil done)
      (
        a,
        finish-none a,
        record {
          count = omega (arith, p.count, p.room);
          table = λ j inside.
              subst (λ w. IsString (a.argv j) 0 (take 127 w)) (get_or_nil done j)
                (p.table j inside);
        },
      )
finish-Parses a n done (w ∷ word) p = (
  counted a n,
  finish-some a n (omega (arith, p.column)) (omega (arith, p.column))
      (omega (arith, p.count, p.room)),
  counted-IsParsed a n done [] (w ∷ word) p (inl refl),
)
