-- ===== src/Bin/Shell/Prompt.antt =====
-- os/bin/shell/shell.c: a line from the keyboard to the arguments.
use hrishikos.Base.{ℕ, ◌≡◌, refl, arith, some, List, take, get_or}
use hrishikos.Drivers.VgaText.{VgaText}
use hrishikos.Drivers.VgaText.Print.{IsOn}
use hrishikos.Bin.Shell.{
  Arguments, Line, Reading, entered, waiting, input_parse, get_input, parse_reading, read_arguments,
}
use hrishikos.Bin.Shell.Words.{words, length-take}
use hrishikos.Bin.Shell.Rows.{IsParsed}
use hrishikos.Bin.Shell.Parse.{input_parse-IsParsed}
use hrishikos.Bin.Shell.Typed.{typed, IsPlain, IsReading, get_input-IsReading}

parse_reading_run :
    (fuel : ℕ) (garbage : ℕ → ℕ → ℕ) (vga : VgaText) (cs : List ℕ) (l : Line) (b : Arguments)
    → get_input vga cs ≡ some (entered l)
    → input_parse fuel l.input garbage 0 ≡ some b
    → read_arguments fuel garbage vga cs ≡ some (some b)
unfolding read_arguments parse_reading
parse_reading_run fuel garbage vga cs l b got parsed = rw (got, parsed) refl

reading-IsParsed :
    (garbage : ℕ → ℕ → ℕ) (vga : VgaText) (cs : List ℕ) (i : ℕ) (r : Reading)
    → get_or cs i 0 ≡ 10
    → get_input vga cs ≡ some r
    → IsReading cs (typed cs) r
    → (b : Arguments) × (read_arguments 1024 garbage vga cs ≡ some (some b))
      × IsParsed (words (take 1023 (typed cs))) b
reading-IsParsed garbage vga cs i (entered l) newline got (string, _) =
    let n = length-take 1023 (typed cs) in
    let (b, run, parsed) =
      input_parse-IsParsed 1024 l.input garbage 0 (take 1023 (typed cs)) string (omega (arith, n))
        (omega (arith, n)) in
    (b, parse_reading_run 1024 garbage vga cs l b got run, parsed)
reading-IsParsed garbage vga cs i (waiting l) newline got (_, _, none_) = absurd (none_ i newline)

-- From a cursor on the screen, a line that is typed without backspaces and zeros and ends in a
-- newline always comes to its arguments: they are the first 64 words, cut at 127 characters, of the
-- first 1023 characters typed.
pub read_arguments-IsParsed :
    (garbage : ℕ → ℕ → ℕ) (vga : VgaText) (cs : List ℕ) (i : ℕ)
    → IsOn vga
    → IsPlain cs
    → get_or cs i 0 ≡ 10
    → (b : Arguments) × (read_arguments 1024 garbage vga cs ≡ some (some b))
      × IsParsed (words (take 1023 (typed cs))) b
read_arguments-IsParsed garbage vga cs i on plain newline =
    let (r, got, reads) = get_input-IsReading vga cs on plain in
    reading-IsParsed garbage vga cs i r newline got reads
