-- ===== src/Bin/Shell/Rows.antt =====
-- os/bin/shell/shell.c: the rows of `argv` while `shell_input_parse` runs, against the words of the
-- line.
use hrishikos.Base.{
  ℕ, zero, suc, ◌+◌, min, ◌≤◌, ◌<◌, ◌≡◌, ◌≢◌, refl, arith, ap, sym, subst, ◌∙◌, true, some, List,
  [], ◌∷◌, ◌++◌, length, take, get_or, length-append, ltb, ==_refl, ==_ne, inl, inr, eq-cases,
  update,
}
use hrishikos.Clib.Strings.Compare.{IsString}
use hrishikos.Bin.Shell.{Arguments, store, set_row}
use hrishikos.Bin.Shell.Words.{
  take-append_long, take_short, length-take, get_or-append_at, IsString-end, IsString-append,
}

-- The rows are the words of `ws`, the first 64 of them, and behind the last one they are empty.
abbrev pub IsTable : (ℕ → ℕ → ℕ) → List (List ℕ) → Type 0
IsTable argv ws = (j : ℕ) → j < 64 → IsString (argv j) 0 (take 127 (get_or ws j []))

pub set_row_self : (argv : ℕ → ℕ → ℕ) (r : ℕ) (bytes : ℕ → ℕ) → set_row argv r bytes r ≡ bytes
set_row_self argv r bytes = rw (==_refl r) refl

pub set_row_ne :
    (argv : ℕ → ℕ → ℕ) (r j : ℕ) (bytes : ℕ → ℕ) → j ≢ r → set_row argv r bytes j ≡ argv j
set_row_ne argv r j bytes ne = rw (==_ne j r ne) refl

-- What the loop knows: `done` words are stored, and `word` is the start of the next one.
pub record IsParsing (a : Arguments) (argv_index : ℕ) (done : List (List ℕ)) (word : List ℕ)
    : Type 0 where
  pub count : a.argc ≡ length done
  pub room : length done < 64
  pub column : argv_index ≡ min 127 (length word)
  pub table : IsTable a.argv (done ++ (word ∷ []))

-- What `shell_input_parse` is to return for a line of these words.
pub record IsParsed (ws : List (List ℕ)) (b : Arguments) : Type 0 where
  pub count : b.argc ≡ min 64 (length ws)
  pub table : IsTable b.argv ws

get_or_last :
    (xs : List (List ℕ)) (y z : List ℕ) (j : ℕ)
    → j ≢ length xs
    → get_or (xs ++ (y ∷ [])) j [] ≡ get_or (xs ++ (z ∷ [])) j []
get_or_last [] y z zero ne = absurd (ne refl)
get_or_last [] y z (suc j) ne = refl
get_or_last (x ∷ xs) y z zero ne = refl
get_or_last (x ∷ xs) y z (suc j) ne = get_or_last xs y z j (omega arith)

pub get_or_nil : (xs : List (List ℕ)) (j : ℕ) → get_or (xs ++ ([] ∷ [])) j [] ≡ get_or xs j []
get_or_nil [] zero = refl
get_or_nil [] (suc j) = refl
get_or_nil (x ∷ xs) zero = refl
get_or_nil (x ∷ xs) (suc j) = get_or_nil xs j

pub table-row :
    (argv : ℕ → ℕ → ℕ) (done : List (List ℕ)) (word : List ℕ)
    → length done < 64
    → IsTable argv (done ++ (word ∷ []))
    → IsString (argv (length done)) 0 (take 127 word)
table-row argv done word room table =
    subst (λ w. IsString (argv (length done)) 0 (take 127 w))
      (get_or-append_at done [] word (length done) [] refl) (table (length done) room)

pub table-set :
    (argv argv' : ℕ → ℕ → ℕ) (done : List (List ℕ)) (word word' : List ℕ)
    → IsTable argv (done ++ (word ∷ []))
    → ((j : ℕ) → j ≢ length done → argv' j ≡ argv j)
    → IsString (argv' (length done)) 0 (take 127 word')
    → IsTable argv' (done ++ (word' ∷ []))
table-set argv argv' done word word' table same row j inside = elim (eq-cases j (length done)) [
  | inl here ↦
      subst (λ w. IsString (argv' j) 0 (take 127 w))
        (sym (get_or-append_at done [] word' j [] here))
        (subst (λ k. IsString (argv' k) 0 (take 127 word')) (sym here) row)
  | inr off ↦
      subst (λ w. IsString (argv' j) 0 (take 127 w)) (get_or_last done word word' j off)
        (subst (λ r. IsString r 0 (take 127 (get_or (done ++ (word ∷ [])) j []))) (sym (same j off))
          (table j inside))
]

abbrev pub stored : Arguments → (column character : ℕ) → Arguments
stored a column character = record a {
  argv = set_row a.argv a.argc (update (a.argv a.argc) column character);
}

pub store_lem :
    (a : Arguments) (column character : ℕ)
    → a.argc < 64
    → column < 128
    → store a column character ≡ some (stored a column character)
unfolding store
store_lem a column character room inside =
    let row : ltb a.argc 64 ≡ true = ground (arith, room) in
    let place : ltb column 128 ≡ true = ground (arith, inside) in rw (row, place) refl

-- A character that has room goes to the row, with the zero behind it.
pub IsParsing-character :
    (a : Arguments) (argv_index x : ℕ) (done : List (List ℕ)) (word : List ℕ)
    → IsParsing a argv_index done word
    → length word < 127
    → x ≢ 0
    → IsParsing
        (stored (stored a argv_index x) (argv_index + 1) 0)
        (argv_index + 1)
        done
        (word ++ (x ∷ []))
IsParsing-character a n x done word p short ne =
    let more = length-append word (x ∷ []) in
    let old = table-row a.argv done word p.room p.table in
    let first = set_row a.argv a.argc (update (a.argv a.argc) n x) in
    let at_row : set_row first a.argc (update (first a.argc) (n + 1) 0) a.argc
        ≡ update (update (a.argv a.argc) n x) (n + 1) 0 =
      set_row_self first a.argc (update (first a.argc) (n + 1) 0)
      ∙ ap (λ row. update row (n + 1) 0)
          (set_row_self a.argv a.argc (update (a.argv a.argc) n x)) in
    record {
      count = p.count;
      room = p.room;
      column = omega (arith, p.column, more, short);
      table =
          table-set a.argv (stored (stored a n x) (n + 1) 0).argv done word (word ++ (x ∷ []))
            p.table
            (λ j off.
              set_row_ne first a.argc j (update (first a.argc) (n + 1) 0) (λ e. off (e ∙ p.count))
              ∙ set_row_ne a.argv a.argc j (update (a.argv a.argc) n x) (λ e. off (e ∙ p.count)))
            (subst
              (λ k.
                IsString (set_row first a.argc (update (first a.argc) (n + 1) 0) k) 0
                  (take 127 (word ++ (x ∷ []))))
              p.count
              (subst (λ row. IsString row 0 (take 127 (word ++ (x ∷ [])))) (sym at_row)
                (subst (λ l. IsString (update (update (a.argv a.argc) n x) (n + 1) 0) 0 l)
                  (sym (take_short 127 (word ++ (x ∷ [])) (omega (arith, more))))
                  (IsString-append (a.argv a.argc) 0 n x word (omega (arith, p.column)) ne (
                    subst (λ k. IsString (a.argv k) 0 word) (sym p.count)
                      (subst (λ l. IsString (a.argv (length done)) 0 l)
                        (take_short 127 word (omega arith)) old))))));
    }

-- A character that has no room is dropped.
pub IsParsing-dropped :
    (a : Arguments) (argv_index x : ℕ) (done : List (List ℕ)) (word : List ℕ)
    → IsParsing a argv_index done word
    → 127 ≤ length word
    → IsParsing a argv_index done (word ++ (x ∷ []))
IsParsing-dropped a n x done word p long =
    let more = length-append word (x ∷ []) in
    record {
      count = p.count;
      room = p.room;
      column = omega (arith, p.column, more);
      table =
          table-set a.argv a.argv done word (word ++ (x ∷ [])) p.table (λ j off. refl)
            (subst (λ l. IsString (a.argv (length done)) 0 l)
              (sym (take-append_long 127 word (x ∷ []) long))
              (table-row a.argv done word p.room p.table));
    }

-- The end of an argument leaves the table.
pub table-ended :
    (a : Arguments) (argv_index : ℕ) (done : List (List ℕ)) (word : List ℕ)
    → IsParsing a argv_index done word
    → IsTable (stored a argv_index 0).argv (done ++ (word ∷ []))
table-ended a n done word p =
    let row = update (a.argv a.argc) n 0 in
    table-set a.argv (stored a n 0).argv done word word p.table
      (λ j off. set_row_ne a.argv a.argc j row (λ e. off (e ∙ p.count)))
      (subst (λ k. IsString (set_row a.argv a.argc row k) 0 (take 127 word)) p.count
        (subst (λ r. IsString r 0 (take 127 word)) (sym (set_row_self a.argv a.argc row))
          (IsString-end (a.argv a.argc) 0 n (take 127 word)
            (omega (arith, p.column, length-take 127 word))
            (subst (λ k. IsString (a.argv k) 0 (take 127 word)) (sym p.count)
              (table-row a.argv done word p.room p.table)))))
