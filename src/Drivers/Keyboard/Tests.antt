-- ===== src/Drivers/Keyboard/Tests.antt =====
-- os/drivers/keyboard.c at concrete inputs.
use hrishikos.Base.{◌≡◌, refl, arith, [], ◌∷◌, update}
use hrishikos.Drivers.Keyboard.{
  Keyboard, buffer_write, get_keycode, buffer_read, central_handler, type_key, press, find_key,
}
use hrishikos.Drivers.Keyboard.Buffer.{
  IsValid, contents, enqueue, code_read, char_read, buffer_write-enqueue, read-contents,
}

-- Caps lock is on, and the queue holds an `a` at the array's last index and a code past the
-- characters at its first.
abbrev typing : Keyboard
typing = record {
  shift_down = 0;
  ctrl_down = 0;
  alt_down = 0;
  caps_lock = 1;
  extended = 0;
  up_arrow_down = 0;
  down_arrow_down = 0;
  left_arrow_down = 0;
  right_arrow_down = 0;
  buffer = update (update (λ _. 0) 255 0x61) 0 0x1001;
  buffer_head = 1;
  buffer_tail = 255;
}

typing-IsValid : IsValid typing
typing-IsValid = record { head_in = omega arith; tail_in = omega arith }

typing-contents : contents typing ≡ 0x61 ∷ 0x1001 ∷ []
typing-contents = refl

-- The key of the letter b.
typed_code : contents (central_handler typing 0x30) ≡ 0x61 ∷ 0x1001 ∷ 0x42 ∷ []
unfolding central_handler press type_key find_key buffer_write
typed_code = refl

buffer_write-enqueue_example :
    (contents (buffer_write typing 0x62) ≡ 0x61 ∷ 0x1001 ∷ 0x62 ∷ [])
    × IsValid (buffer_write typing 0x62)
unfolding enqueue
buffer_write-enqueue_example = buffer_write-enqueue typing 0x62 typing-IsValid

read-contents_example :
    ((get_keycode typing).0 ≡ 0x61)
    × (contents (get_keycode typing).1 ≡ 0x1001 ∷ [])
    × IsValid (get_keycode typing).1
    × ((buffer_read typing).0 ≡ 0x61)
    × (contents (buffer_read typing).1 ≡ 0x1001 ∷ [])
    × IsValid (buffer_read typing).1
unfolding code_read char_read
read-contents_example = read-contents typing typing-IsValid
