-- ===== src/Bin/Shell.antt =====
-- os/bin/shell/shell.c: reading a line from the keyboard, taking it apart and finding the command. A
-- line is a string in memory, as in Clib/Strings.antt. A store outside an array, a character that
-- the console cannot show and a loop that does not end within the fuel are `none`.
pub mod Words
pub mod Rows
pub mod Steps
pub mod Rounds
pub mod Parse
pub mod Typed
pub mod Run
pub mod Prompt
mod Tests
use hrishikos.Base.{
  ◌>>=◌, ℕ, zero, suc, ◌+◌, ◌-◌, ◌%◌, ◌^◌, Bool, ◌&&◌, Option, none, some, List, [], ◌∷◌, ◌==◌, ltb,
  leb, if◌then◌else◌, update, u64, u8,
}
use hrishikos.Clib.Strings.{strlen, strcmp}
use hrishikos.Drivers.VgaText.{VgaText, print, print_character}

abbrev pub command_length_maximum : ℕ
command_length_maximum = 1024

abbrev pub command_delimiter : ℕ
command_delimiter = 32

abbrev pub argc_maximum : ℕ
argc_maximum = 64

abbrev pub argv_maximum : ℕ
argv_maximum = 128

abbrev pub commands_count : ℕ
commands_count = 21

pub record Arguments : Type 0 where
  pub argc : ℕ
  pub argv : ℕ → ℕ → ℕ

abbrev pub set_row : (ℕ → ℕ → ℕ) → (row : ℕ) → (ℕ → ℕ) → ℕ → ℕ → ℕ
set_row argv row bytes j = if j == row then bytes else argv j

-- `arguments.argv[arguments.argc][column] = character`
pub store : Arguments → (column character : ℕ) → Option Arguments
store a column character =
    if ltb a.argc argc_maximum && ltb column argv_maximum
    then some (record a { argv = set_row a.argv a.argc (update (a.argv a.argc) column character) })
    else none

-- The first loop of `shell_input_parse`.
pub clear_rows : (left : ℕ) → (ℕ → ℕ → ℕ) → (i : ℕ) → ℕ → ℕ → ℕ
clear_rows zero argv i = argv
clear_rows (suc left) argv i = clear_rows left (set_row argv i (update (argv i) 0 0)) (i + 1)

-- The first index from `i` on with no delimiter.
pub skip_delimiters : (fuel : ℕ) → (ℕ → ℕ) → (input i : ℕ) → Option ℕ
skip_delimiters zero m input i = none
skip_delimiters (suc fuel) m input i =
    let rest = skip_delimiters fuel m input (u64 (i + 1)) in
    if m (input + i) == command_delimiter then rest else some i

-- A round of the loop returns, or goes on with its three variables.
pub data Round : Type 0 where
  returned : Arguments → Round
  next : Arguments → (argv_index i : ℕ) → Round

-- The end of an argument, before a delimiter.
pub end_argument : Arguments → (argv_index i : ℕ) → Option Round
end_argument a argv_index i =
    if ltb 0 argv_index
    then (do
      ended ← store a argv_index 0
      some (
          if leb argc_maximum (ended.argc + 1)
          then returned (record ended { argc = ended.argc + 1 })
          else next (record ended { argc = ended.argc + 1 }) 0 i))
    else some (next a argv_index i)

-- The body of the loop and its `i++`: the delimiters behind the one at `i` are skipped.
pub parse_round : (fuel : ℕ) → (ℕ → ℕ) → (input : ℕ) → Arguments → (argv_index i : ℕ) → Option Round
parse_round fuel m input a argv_index i =
    if m (input + i) == command_delimiter
    then (do j ← skip_delimiters fuel m input (u64 (i + 1)); end_argument a argv_index j)
    else if ltb argv_index (argv_maximum - 1)
    then (do
      stored ← store a argv_index (m (input + i))
      ended ← store stored ((argv_index + 1) % 2 ^ 16) 0
      some (next ended ((argv_index + 1) % 2 ^ 16) (u64 (i + 1))))
    else some (next a argv_index (u64 (i + 1)))

-- What follows the loop.
pub finish_arguments : Arguments → (argv_index : ℕ) → Option Arguments
finish_arguments a argv_index =
    if ltb 0 argv_index
    then (do ended ← store a argv_index 0; some (record ended { argc = ended.argc + 1 }))
    else some a

abbrev pub go_on : (Arguments → (argv_index i : ℕ) → Option Arguments) → Round → Option Arguments
go_on loop (returned a) = some a
go_on loop (next a argv_index i) = loop a argv_index i

-- The loop `for (; i < strlen(input); i++)`.
pub parse_rounds :
    (fuel : ℕ) → (ℕ → ℕ) → (input length : ℕ) → Arguments → (argv_index i : ℕ) → Option Arguments
parse_rounds zero m input length a argv_index i = none
parse_rounds (suc fuel) m input length a argv_index i =
    if ltb i length
    then parse_round fuel m input a argv_index i >>= go_on (parse_rounds fuel m input length)
    else finish_arguments a argv_index

-- `garbage` is what stands in the array before.
pub input_parse : (fuel : ℕ) → (ℕ → ℕ) → (garbage : ℕ → ℕ → ℕ) → (input : ℕ) → Option Arguments
input_parse fuel m garbage input = do
  i ← skip_delimiters fuel m input 0
  length ← strlen fuel m input
  parse_rounds fuel m input length (record { argc = 0; argv = clear_rows argc_maximum garbage 0 }) 0
      i

-- The names in the table `commands`.
abbrev pub command_names : List (List ℕ)
command_names =
    (104 ∷ 101 ∷ 108 ∷ 112 ∷ [])
    ∷ (112 ∷ 114 ∷ 105 ∷ 110 ∷ 116 ∷ [])
    ∷ (99 ∷ 108 ∷ 101 ∷ 97 ∷ 114 ∷ [])
    ∷ (114 ∷ 101 ∷ 98 ∷ 111 ∷ 111 ∷ 116 ∷ [])
    ∷ (99 ∷ 111 ∷ 108 ∷ 111 ∷ 114 ∷ [])
    ∷ (104 ∷ 97 ∷ 108 ∷ 116 ∷ [])
    ∷ (112 ∷ 109 ∷ 109 ∷ 105 ∷ 110 ∷ 102 ∷ 111 ∷ [])
    ∷ (104 ∷ 101 ∷ 97 ∷ 112 ∷ 105 ∷ 110 ∷ 102 ∷ 111 ∷ [])
    ∷ (118 ∷ 103 ∷ 97 ∷ 116 ∷ 101 ∷ 115 ∷ 116 ∷ [])
    ∷ (109 ∷ 101 ∷ 109 ∷ 105 ∷ 110 ∷ 102 ∷ 111 ∷ [])
    ∷ (100 ∷ 101 ∷ 100 ∷ [])
    ∷ (116 ∷ 101 ∷ 109 ∷ 112 ∷ [])
    ∷ (108 ∷ 115 ∷ [])
    ∷ (109 ∷ 107 ∷ 100 ∷ 105 ∷ 114 ∷ [])
    ∷ (99 ∷ 100 ∷ [])
    ∷ (114 ∷ 109 ∷ 100 ∷ 105 ∷ 114 ∷ [])
    ∷ (112 ∷ 119 ∷ 100 ∷ [])
    ∷ (116 ∷ 111 ∷ 117 ∷ 99 ∷ 104 ∷ [])
    ∷ (114 ∷ 109 ∷ [])
    ∷ (111 ∷ 117 ∷ 116 ∷ [])
    ∷ (101 ∷ 100 ∷ 105 ∷ 116 ∷ [])
    ∷ []

-- What `shell_run_command` does: nothing, the call of a command, or the message on a wrong one.
pub data Action : Type 0 where
  nothing : Action
  call : (i : ℕ) → Action
  invalid : Action

-- The loop over the `left` commands from `i` on; `command i` is the address of a name.
pub find_command : (fuel left : ℕ) → (ℕ → ℕ) → (command : ℕ → ℕ) → (argument i : ℕ) → Option Action
find_command fuel zero m command argument i = some invalid
find_command fuel (suc left) m command argument i = do
  equal ← strcmp fuel m (command i) argument
  if equal == 0 then find_command fuel left m command argument (i + 1) else some (call i)

-- `empty` is the address of the literal `"\0"`, `argument` that of `argv[0]`.
pub run_command : (fuel : ℕ) → (ℕ → ℕ) → (command : ℕ → ℕ) → (empty argument : ℕ) → Option Action
run_command fuel m command empty argument = do
  is_empty ← strcmp fuel m argument empty
  if is_empty == 0 then find_command fuel commands_count m command argument 0 else some nothing

-- The line so far, with the console.
pub record Line : Type 0 where
  pub input : ℕ → ℕ
  pub index : ℕ
  pub vga : VgaText

-- `input[index] = character`
pub put : Line → (character : ℕ) → Option Line
put l character =
    if ltb l.index command_length_maximum
    then some (record l { input = update l.input l.index character })
    else none

-- The end of a round that takes a character into the line.
pub take_character : Line → (character : ℕ) → Option Line
take_character l character = do
  shown ← print_character l.vga character
  taken ← put (record l { vga = shown }) character
  put (record taken { index = (taken.index + 1) % 2 ^ 16 }) 0

-- The shell declares the cursor of the console as `unsigned char` and so sees its low byte.
abbrev pub at_start : Line → (start_x start_y : ℕ) → Bool
at_start l start_x start_y = (u8 l.vga.cursor_x == start_x) && (u8 l.vga.cursor_y == start_y)

-- A round on a character that is no `'\n'`; 255 is the `-1` of an empty keyboard.
pub line_round : (start_x start_y : ℕ) → Line → (character : ℕ) → Option Line
line_round start_x start_y l character =
    if character == 255
    then some l
    else if character == 8
    then (if at_start l start_x start_y
        then some l
        else if ltb 0 l.index
        then (do
          cut ← put (record l { index = l.index - 1 }) 0
          shown ← print_character cut.vga 8
          some (record cut { vga = shown }))
        else take_character l character)
    else take_character l character

-- The line that is returned, or the line as it is when the keyboard goes silent.
pub data Reading : Type 0 where
  entered : Line → Reading
  waiting : Line → Reading

-- The loop, on what `keyboard_buffer_read` returns from round to round.
pub get_line : (start_x start_y : ℕ) → Line → (characters : List ℕ) → Option Reading
get_line start_x start_y l [] =
    if l.index == command_length_maximum - 1
    then (do ended ← put l 0; some (entered ended))
    else some (waiting l)
get_line start_x start_y l (character ∷ characters) =
    if l.index == command_length_maximum - 1
    then (do ended ← put l 0; some (entered ended))
    else if character == 10
    then (do
      shown ← print_character l.vga 10
      ended ← put (record l { vga = shown }) 0
      some (entered ended))
    else line_round start_x start_y l character >>= λ after.
        get_line start_x start_y after characters

-- `vga` is the console after the prompt, whose cursor is the start of the line.
pub get_input : VgaText → (characters : List ℕ) → Option Reading
get_input vga characters =
    get_line (u8 vga.cursor_x) (u8 vga.cursor_y) (record { input = λ _. 0; index = 0; vga = vga })
      characters

-- What `shell_print_spacing` prints.
pub print_spacing : VgaText → Option VgaText
print_spacing vga =
    if u8 vga.cursor_x == 0
    then (if u8 vga.cursor_y == 0 then some vga else print vga (10 ∷ []))
    else print vga (10 ∷ 10 ∷ [])

-- The two calls of `shell_main` between the prompt and the command; `none` inside is a line that is
-- not yet entered.
pub parse_reading : (fuel : ℕ) → (garbage : ℕ → ℕ → ℕ) → Reading → Option (Option Arguments)
parse_reading fuel garbage (entered l) = do
  arguments ← input_parse fuel l.input garbage 0
  some (some arguments)
parse_reading fuel garbage (waiting l) = some none

pub read_arguments :
    (fuel : ℕ) → (garbage : ℕ → ℕ → ℕ) → VgaText → (characters : List ℕ) → Option (Option Arguments)
read_arguments fuel garbage vga characters = do
  reading ← get_input vga characters
  parse_reading fuel garbage reading
