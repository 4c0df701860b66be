-- ===== src/Drivers/Keyboard/Actions.antt =====
-- os/drivers/keyboard.c: the branches of the handler as actions.
use hrishikos.Base.{
  ℕ, ◌-◌, refl, Bool, true, false, not, bit_and, bit_xor, ◌==◌, if◌then◌else◌, List, [], ◌∷◌,
  Option-cases, inl, inr, some, none,
}
use hrishikos.Drivers.Keyboard.{
  Keyboard, letter_list, digit_symbol_list, control_list, buffer_write, release, press_extended,
  find_key, find_symbol, type_key, press, central_handler,
}
use hrishikos.Drivers.Keyboard.Buffer.{IsValid}
use hrishikos.Drivers.Keyboard.Layout.{toggle, keep}
use hrishikos.Drivers.Keyboard.Step.{
  Action, Does, SameQueue, silent, writes, either, cleared, without_prefix,
}

abbrev kept : List ℕ
kept = keep ∷ keep ∷ keep ∷ keep ∷ keep ∷ keep ∷ keep ∷ keep ∷ keep ∷ []

abbrev set_shift : ℕ → List ℕ
set_shift w = w ∷ keep ∷ keep ∷ keep ∷ keep ∷ keep ∷ keep ∷ keep ∷ keep ∷ []

abbrev set_control : ℕ → List ℕ
set_control w = keep ∷ w ∷ keep ∷ keep ∷ keep ∷ keep ∷ keep ∷ keep ∷ keep ∷ []

abbrev set_alt : ℕ → List ℕ
set_alt w = keep ∷ keep ∷ w ∷ keep ∷ keep ∷ keep ∷ keep ∷ keep ∷ keep ∷ []

abbrev set_up : ℕ → List ℕ
set_up w = keep ∷ keep ∷ keep ∷ keep ∷ keep ∷ w ∷ keep ∷ keep ∷ keep ∷ []

abbrev set_down : ℕ → List ℕ
set_down w = keep ∷ keep ∷ keep ∷ keep ∷ keep ∷ keep ∷ w ∷ keep ∷ keep ∷ []

abbrev set_left : ℕ → List ℕ
set_left w = keep ∷ keep ∷ keep ∷ keep ∷ keep ∷ keep ∷ keep ∷ w ∷ keep ∷ []

abbrev set_right : ℕ → List ℕ
set_right w = keep ∷ keep ∷ keep ∷ keep ∷ keep ∷ keep ∷ keep ∷ keep ∷ w ∷ []

abbrev release_action : ℕ → Action
release_action b =
    if b == 0x48
    then (0x1005 ∷ [], set_up 0)
    else if b == 0x50
    then (0x1006 ∷ [], set_down 0)
    else if b == 0x4b
    then (0x1007 ∷ [], set_left 0)
    else if b == 0x4d
    then (0x1008 ∷ [], set_right 0)
    else if b == 0x2a
    then ([], set_shift 0)
    else if b == 0x36
    then ([], set_shift 0)
    else if b == 0x1d
    then (0x100b ∷ [], set_control 0)
    else if b == 0x38
    then (0x100c ∷ [], set_alt 0)
    else ([], kept)

release-Does : (k : Keyboard) (b : ℕ) → IsValid k → Does (release_action b) k (release k b)
unfolding release
release-Does k b v = either (b == 0x48) (writes 0x1005 (set_up 0) same refl v) (
    either (b == 0x50) (writes 0x1006 (set_down 0) same refl v) (
      either (b == 0x4b) (writes 0x1007 (set_left 0) same refl v) (
        either (b == 0x4d) (writes 0x1008 (set_right 0) same refl v) (
          either (b == 0x2a) (silent (set_shift 0) same refl v) (
            either (b == 0x36) (silent (set_shift 0) same refl v) (
              either (b == 0x1d) (writes 0x100b (set_control 0) same refl v) (
                either (b == 0x38) (writes 0x100c (set_alt 0) same refl v)
                  (silent kept same refl v))))))))
  where
    same : SameQueue k k
    same = (refl, refl, refl)

abbrev extended_action : ℕ → Action
extended_action b =
    if b == 0x48
    then (0x1001 ∷ [], set_up 1)
    else if b == 0x50
    then (0x1002 ∷ [], set_down 1)
    else if b == 0x4b
    then (0x1003 ∷ [], set_left 1)
    else if b == 0x4d
    then (0x1004 ∷ [], set_right 1)
    else if b == 0x1d
    then (0x1009 ∷ [], set_control 1)
    else if b == 0x38
    then (0x100a ∷ [], set_alt 1)
    else ([], kept)

press_extended-Does :
    (k : Keyboard) (b : ℕ) → IsValid k → Does (extended_action b) k (press_extended k b)
unfolding press_extended
press_extended-Does k b v = either (b == 0x48) (writes 0x1001 (set_up 1) same refl v) (
    either (b == 0x50) (writes 0x1002 (set_down 1) same refl v) (
      either (b == 0x4b) (writes 0x1003 (set_left 1) same refl v) (
        either (b == 0x4d) (writes 0x1004 (set_right 1) same refl v) (
          either (b == 0x1d) (writes 0x1009 (set_control 1) same refl v) (
            either (b == 0x38) (writes 0x100a (set_alt 1) same refl v)
              (silent kept same refl v))))))
  where
    same : SameQueue k k
    same = (refl, refl, refl)

abbrev typed_code : (plain : Bool) (base : ℕ) → List ℕ
typed_code plain b = elim (find_key b letter_list) [
  | some ascii ↦ if plain then ascii ∷ [] else (ascii - 0x20) ∷ []
  | none ↦ elim (find_symbol b digit_symbol_list) [
    | some (normal, shifted) ↦ if plain then normal ∷ [] else shifted ∷ []
    | none ↦ elim (find_key b control_list) [ some ascii ↦ ascii ∷ [] | none ↦ [] ]
  ]
]

abbrev pub is_plain : Keyboard → Bool
is_plain k = bit_xor k.shift_down k.caps_lock == 0

either_code :
    {k x y : Keyboard} (b : Bool) {cx cy : List ℕ}
    → Does (cx, kept) k x
    → Does (cy, kept) k y
    → Does (if b then cx else cy, kept) k (if b then x else y)
either_code true p q = p
either_code false p q = q

type_key-Does :
    (k : Keyboard) (b : ℕ) → IsValid k → Does (typed_code (is_plain k) b, kept) k (type_key k b)
unfolding type_key
type_key-Does k b v = elim (Option-cases (find_key b letter_list)) [
  | inr (ascii, e) ↦
      rw (e, type_key, typed_code) (either_code (is_plain k) (write ascii) (write (ascii - 0x20)))
  | inl no_letter ↦
      rw (no_letter, type_key, typed_code)
        (elim (Option-cases (find_symbol b digit_symbol_list)) [
          | inr ((normal, shifted), e) ↦
              rw (e, type_key, typed_code) (either_code (is_plain k) (write normal) (write shifted))
          | inl no_symbol ↦
              rw (no_symbol, type_key, typed_code)
                (elim (Option-cases (find_key b control_list)) [
                  | inr (ascii, e) ↦ rw (e, type_key, typed_code) (write ascii)
                  | inl no_control ↦
                      rw (no_control, type_key, typed_code) (silent kept (refl, refl, refl) refl v)
                ])
        ])
]
  where
    write : (c : ℕ) → Does (c ∷ [], kept) k (buffer_write k c)
    write c = writes c kept (refl, refl, refl) refl v

abbrev press_action : (plain : Bool) (base : ℕ) → Action
press_action plain b =
    if b == 0x2a
    then ([], set_shift 1)
    else if b == 0x36
    then ([], set_shift 1)
    else if b == 0x3a
    then ([], keep ∷ keep ∷ keep ∷ toggle ∷ keep ∷ keep ∷ keep ∷ keep ∷ keep ∷ [])
    else (typed_code plain b, kept)

press-Does : (k : Keyboard) (b : ℕ) → IsValid k → Does (press_action (is_plain k) b) k (press k b)
unfolding press
press-Does k b v = either (b == 0x2a) (silent (set_shift 1) same refl v) (
    either (b == 0x36) (silent (set_shift 1) same refl v)
      (either (b == 0x3a) (silent _ same refl v) (type_key-Does k b v)))
  where
    same : SameQueue k k
    same = (refl, refl, refl)

abbrev prefix_change : List ℕ
prefix_change = keep ∷ keep ∷ keep ∷ keep ∷ 1 ∷ keep ∷ keep ∷ keep ∷ keep ∷ []

abbrev pub action : (unextended plain : Bool) (scancode : ℕ) → Action
action unextended plain s =
    let b = bit_and s 0x7f in
    if s == 0xe0
    then ([], prefix_change)
    else if not (bit_and s 0x80 == 0)
    then ((release_action b).0, cleared 4 (release_action b).1)
    else if not unextended
    then ((extended_action b).0, cleared 4 (extended_action b).1)
    else press_action plain b

pub central_handler-Does :
    (k : Keyboard) (s : ℕ)
    → IsValid k
    → Does (action (k.extended == 0) (is_plain k) s) k (central_handler k s)
unfolding central_handler
central_handler-Does k s v =
    let b = bit_and s 0x7f in
    either (s == 0xe0) (silent prefix_change (refl, refl, refl) refl v) (
      either (not (bit_and s 0x80 == 0)) (without_prefix (release_action b) (release-Does k b v)) (
        either (not (k.extended == 0))
          (without_prefix (extended_action b) (press_extended-Does k b v)) (press-Does k b v)))
