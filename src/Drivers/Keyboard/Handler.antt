-- ===== src/Drivers/Keyboard/Handler.antt =====
-- os/drivers/keyboard.c: the handler of the scan codes against the layout of the keyboard.
use hrishikos.Base.{ℕ, Bool, true, false, not, ◌&&◌, ◌==◌, List, [], ◌∷◌}
use hrishikos.Drivers.Keyboard.{Keyboard}
use hrishikos.Drivers.Keyboard.Layout.{codes_of, changes_of}
use hrishikos.Drivers.Keyboard.Actions.{action}

same_numbers : List ℕ → List ℕ → Bool
same_numbers [] [] = true
same_numbers [] (y ∷ ys) = false
same_numbers (x ∷ xs) [] = false
same_numbers (x ∷ xs) (y ∷ ys) = (x == y) && same_numbers xs ys

agrees : (unextended plain : Bool) (s : ℕ) → Bool
agrees unextended plain s =
    let (codes, what) = action unextended plain s in
    same_numbers codes (codes_of (not unextended) (not plain) s)
    && same_numbers what (changes_of (not unextended) s)
