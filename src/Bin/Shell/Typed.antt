-- ===== src/Bin/Shell/Typed.antt =====
-- os/bin/shell/shell.c: what `shell_get_input` reads.
use hrishikos.Base.{
  ℕ, zero, suc, ◌+◌, ◌%◌, ◌^◌, ◌≤◌, ◌<◌, ◌≡◌, ◌≢◌, ◌⊎◌, refl, arith, ap, sym, subst, ◌∙◌, true,
  some, List, [], ◌∷◌, ◌++◌, length, take, get_or, append_assoc, append-nil, length-append, ◌==◌,
  ltb, if◌then◌else◌, inl, inr, eq-cases, ==_ne, update, u8,
}
use hrishikos.Clib.Strings.Compare.{IsString}
use hrishikos.Drivers.VgaText.{VgaText, print_character}
use hrishikos.Drivers.VgaText.Print.{IsOn, print_character-LandsOn}
use hrishikos.Bin.Shell.{
  Line, put, take_character, line_round, Reading, entered, waiting, get_line, get_input,
}
use hrishikos.Bin.Shell.Words.{IsString-end, IsString-append, take-append_long, take_short}

-- The characters up to the newline, without the rounds on which the keyboard had none.
abbrev pub typed : List ℕ → List ℕ
typed [] = []
typed (c ∷ cs) = if c == 10 then [] else if c == 255 then typed cs else c ∷ typed cs

-- Neither a backspace nor a zero is typed.
abbrev pub IsPlain : List ℕ → Type 0
IsPlain cs = (i : ℕ) → (get_or cs i 1 ≢ 8) × (get_or cs i 1 ≢ 0)

-- What is to come of the line `xs`, of which the first 1023 characters have room.
abbrev pub IsReading : (cs : List ℕ) → (xs : List ℕ) → Reading → Type 0
IsReading cs xs (entered l) =
    IsString l.input 0 (take 1023 xs) × ((1023 ≤ length xs) ⊎ ((i : ℕ) × (get_or cs i 0 ≡ 10)))
IsReading cs xs (waiting l) =
    IsString l.input 0 xs × (length xs < 1023) × ((i : ℕ) → get_or cs i 0 ≢ 10)

-- The line holds the characters `word`.
record IsLine (l : Line) (word : List ℕ) : Type 0 where
  string : IsString l.input 0 word
  at_end : l.index ≡ length word
  room : length word ≤ 1023
  on : IsOn l.vga

put_lem :
    (l : Line) (c : ℕ)
    → l.index < 1024
    → put l c ≡ some (record l { input = update l.input l.index c })
unfolding put
put_lem l c room = let inside : ltb l.index 1024 ≡ true = ground (arith, room) in rw inside refl

put-end :
    (l : Line) (word : List ℕ)
    → IsLine l word
    → (w : Line) × (put l 0 ≡ some w) × IsString w.input 0 word
put-end l word is = (
  record l { input = update l.input l.index 0 },
  put_lem l 0 (omega (arith, is.at_end, is.room)),
  IsString-end l.input 0 l.index word (omega (arith, is.at_end)) is.string,
)

take_character_lem :
    (l : Line) (c : ℕ) (w : VgaText)
    → print_character l.vga c ≡ some w
    → l.index < 1023
    → take_character l c
      ≡ some (record {
        input = update (update l.input l.index c) (l.index + 1) 0;
        index = l.index + 1;
        vga = w;
      })
unfolding take_character
take_character_lem l c w shown room =
    let after : (l.index + 1) % 2 ^ 16 ≡ l.index + 1 = omega (arith, room) in
    let first = put_lem (record l { vga = w }) c (omega (arith, room)) in
    let second =
      put_lem (record { input = update l.input l.index c; index = l.index + 1; vga = w }) 0
        (omega (arith, room)) in
    rw (shown, first, after) second

take_character-IsLine :
    (l : Line) (c : ℕ) (word : List ℕ)
    → IsLine l word
    → length word < 1023
    → c ≢ 8
    → c ≢ 0
    → (w : Line) × (take_character l c ≡ some w) × IsLine w (word ++ (c ∷ []))
take_character-IsLine l c word is room back nul =
    let (v, shown, on) = print_character-LandsOn l.vga c back is.on in
    let more = length-append word (c ∷ []) in
    (
      record {
        input = update (update l.input l.index c) (l.index + 1) 0;
        index = l.index + 1;
        vga = v;
      },
      take_character_lem l c v shown (omega (arith, is.at_end, room)),
      record {
        string = IsString-append l.input 0 l.index c word (omega (arith, is.at_end)) nul is.string;
        at_end = omega (arith, is.at_end, more);
        room = omega (arith, more, room);
        on = on;
      },
    )

line_round-silent : (x y : ℕ) (l : Line) → line_round x y l 255 ≡ some l
unfolding line_round
line_round-silent x y l = refl

line_round-plain :
    (x y : ℕ) (l : Line) (c : ℕ) → c ≢ 255 → c ≢ 8 → line_round x y l c ≡ take_character l c
unfolding line_round
line_round-plain x y l c quiet back = rw (==_ne c 255 quiet, ==_ne c 8 back) refl

at_end : (l : Line) → l.index ≡ 1023 → (l.index == 1023) ≡ true
at_end l full = ground (arith, full)

get_line-full :
    (x y : ℕ) (l w : Line) (cs : List ℕ)
    → l.index ≡ 1023
    → put l 0 ≡ some w
    → get_line x y l cs ≡ some (entered w)
unfolding get_line
get_line-full x y l w [] full run = rw (at_end l full, run) refl
get_line-full x y l w (c ∷ cs) full run = rw (at_end l full, run) refl

get_line-none : (x y : ℕ) (l : Line) → l.index ≢ 1023 → get_line x y l [] ≡ some (waiting l)
unfolding get_line
get_line-none x y l short = rw (==_ne l.index 1023 short) refl

get_line-newline :
    (x y : ℕ) (l w : Line) (v : VgaText) (cs : List ℕ)
    → l.index ≢ 1023
    → print_character l.vga 10 ≡ some v
    → put (record l { vga = v }) 0 ≡ some w
    → get_line x y l (10 ∷ cs) ≡ some (entered w)
unfolding get_line
get_line-newline x y l w v cs short shown run = rw (==_ne l.index 1023 short, shown, run) refl

get_line-round :
    (x y : ℕ) (l w : Line) (c : ℕ) (cs : List ℕ)
    → l.index ≢ 1023
    → c ≢ 10
    → line_round x y l c ≡ some w
    → get_line x y l (c ∷ cs) ≡ get_line x y w cs
unfolding get_line
get_line-round x y l w c cs short other run =
    rw (==_ne l.index 1023 short, ==_ne c 10 other, run) refl

-- The outcome of the rest is the outcome of the whole.
IsReading-cons :
    (c : ℕ) (cs xs : List ℕ) (r : Reading) → c ≢ 10 → IsReading cs xs r → IsReading (c ∷ cs) xs r
IsReading-cons c cs xs (entered l) other (s, inl long) = (s, inl long)
IsReading-cons c cs xs (entered l) other (s, inr (i, e)) = (s, inr (suc i, e))
IsReading-cons c cs xs (waiting l) other (s, short, none_) = (s, short, λ i. at i)
  where
    at : (i : ℕ) → get_or (c ∷ cs) i 0 ≢ 10
    at zero = other
    at (suc i) = none_ i

abbrev Reads : (x y : ℕ) → Line → (cs xs : List ℕ) → Type 0
Reads x y l cs xs = (r : Reading) × (get_line x y l cs ≡ some r) × IsReading cs xs r

full-Reads :
    (x y : ℕ) (l : Line) (word cs : List ℕ)
    → IsLine l word
    → length word ≡ 1023
    → Reads x y l cs (word ++ typed cs)
full-Reads x y l word cs is full =
    let (w, run, string) = put-end l word is in
    let all = length-append word (typed cs) in
    (
      entered w,
      get_line-full x y l w cs (is.at_end ∙ full) run,
      (
        subst (λ xs. IsString w.input 0 xs)
            (sym (
              take-append_long 1023 word (typed cs) (omega (arith, full))
              ∙ take_short 1023 word (omega (arith, full))))
            string,
        inl (omega (arith, all, full)),
      ),
    )

newline-Reads :
    (x y : ℕ) (l : Line) (word cs : List ℕ)
    → IsLine l word
    → length word < 1023
    → Reads x y l (10 ∷ cs) (word ++ [])
newline-Reads x y l word cs is short =
    let (v, shown, on) = print_character-LandsOn l.vga 10 (omega arith) is.on in
    let after : Line = record l { vga = v } in
    let (w, run, string) =
      put-end after word
        (record { string = is.string; at_end = is.at_end; room = is.room; on = on }) in
    (
      entered w,
      get_line-newline x y l w v cs (omega (arith, is.at_end, short)) shown run,
      (
        subst (λ xs. IsString w.input 0 xs)
            (sym (ap (λ xs. take 1023 xs) (append-nil word) ∙ take_short 1023 word (omega arith)))
            string,
        inr (0, refl),
      ),
    )

get_line-Reads :
    (cs : List ℕ) (x y : ℕ) (l : Line) (word : List ℕ)
    → IsLine l word
    → IsPlain cs
    → Reads x y l cs (word ++ typed cs)
get_line-Reads [] x y l word is plain = elim (eq-cases (length word) 1023) [
  | inl full ↦ full-Reads x y l word [] is full
  | inr ne ↦ (
    waiting l,
    get_line-none x y l (omega (arith, is.at_end, ne)),
    (
      subst (λ xs. IsString l.input 0 xs) (sym (append-nil word)) is.string,
      omega (arith, length-append word [], ne, is.room),
      λ i. omega arith,
    ),
  )
]
get_line-Reads (c ∷ cs) x y l word is plain = elim (eq-cases (length word) 1023) [
  | inl full ↦ full-Reads x y l word (c ∷ cs) is full
  | inr ne ↦
      let short : length word < 1023 = omega (arith, ne, is.room) in
      let at : l.index ≢ 1023 = omega (arith, is.at_end, ne) in
      elim (eq-cases c 10) [
        | inl newline ↦ rw newline (newline-Reads x y l word cs is short)
        | inr other ↦ elim (eq-cases c 255) [
          | inl silent ↦
              let (r, run, reads) = get_line-Reads cs x y l word is (λ i. plain (suc i)) in
              rw silent (
                r,
                get_line-round x y l l 255 cs at (omega arith) (line_round-silent x y l) ∙ run,
                IsReading-cons 255 cs (word ++ typed cs) r (omega arith) reads,
              )
          | inr quiet ↦
              let (back, nul) = plain 0 in
              let (w, taken, more) = take_character-IsLine l c word is short back nul in
              let (r, run, reads) =
                get_line-Reads cs x y w (word ++ (c ∷ [])) more (λ i. plain (suc i)) in
              rw (==_ne c 10 other, ==_ne c 255 quiet)
                (
                  r,
                  get_line-round x y l w c cs at other (line_round-plain x y l c quiet back ∙ taken)
                      ∙ run,
                  IsReading-cons c cs (word ++ (c ∷ typed cs)) r other (
                      subst (λ xs. IsReading cs xs r) (append_assoc word (c ∷ []) (typed cs))
                        reads),
                )
        ]
      ]
]

-- From a cursor on the screen, on characters of which none is a backspace or a zero,
-- `shell_get_input` never stores outside its array, and what it holds is the string of the characters
-- typed before the newline: it returns at the newline or with the first 1023 of them, and waits as
-- long as there is neither.
pub get_input-IsReading :
    (vga : VgaText) (cs : List ℕ)
    → IsOn vga
    → IsPlain cs
    → (r : Reading) × (get_input vga cs ≡ some r) × IsReading cs (typed cs) r
unfolding get_input
get_input-IsReading vga cs on plain =
    get_line-Reads cs (u8 vga.cursor_x) (u8 vga.cursor_y)
      (record { input = λ _. 0; index = 0; vga = vga }) []
      (record { string = refl; at_end = refl; room = omega arith; on = on }) plain
