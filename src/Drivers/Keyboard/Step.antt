-- ===== src/Drivers/Keyboard/Step.antt =====
-- os/drivers/keyboard.c: what it is for a scan code to put codes into the queue and to change flags.
use hrishikos.Base.{
  ℕ, zero, suc, ◌≡◌, refl, ap, ◌∙◌, arith, Bool, true, false, if◌then◌else◌, List, [], ◌∷◌,
}
use hrishikos.Drivers.Keyboard.{Keyboard, buffer_write}
use hrishikos.Drivers.Keyboard.Buffer.{IsValid, contents, buffer_write-enqueue}
use hrishikos.Drivers.Keyboard.Layout.{flags, change, changes, enqueue_all}

-- From `k` to `k'` the codes are put into the queue and the flags changed.
pub record IsStep (codes what : List ℕ) (k k' : Keyboard) : Type 0 where
  pub valid : IsValid k'
  pub queue : contents k' ≡ enqueue_all (contents k) codes
  pub flags_after : flags k' ≡ changes what (flags k)

-- An action: codes and changes of flags.
abbrev pub Action : Type 0
Action = List ℕ × List ℕ

abbrev pub Does : Action → Keyboard → Keyboard → Type 0
Does a k k' = IsStep a.0 a.1 k k'

-- `k'` differs from `k` in flags only.
abbrev pub SameQueue : Keyboard → Keyboard → Type 0
SameQueue k k' =
    (k'.buffer ≡ k.buffer) × (k'.buffer_head ≡ k.buffer_head) × (k'.buffer_tail ≡ k.buffer_tail)

contents_same : (k k' : Keyboard) → SameQueue k k' → contents k' ≡ contents k
contents_same k k' (b, h, t) = rw (b, h, t)

IsValid-same : (k k' : Keyboard) → SameQueue k k' → IsValid k → IsValid k'
IsValid-same k k' (b, h, t) v = omega arith

pub silent :
    (what : List ℕ) {k k' : Keyboard}
    → SameQueue k k'
    → flags k' ≡ changes what (flags k)
    → IsValid k
    → Does ([], what) k k'
silent what {k} {k'} same f v = record {
  valid = IsValid-same k k' same v;
  queue = contents_same k k' same;
  flags_after = f;
}

flags-buffer_write : (k : Keyboard) (c : ℕ) → flags (buffer_write k c) ≡ flags k
unfolding buffer_write
flags-buffer_write k c = refl

pub writes :
    (c : ℕ) (what : List ℕ) {k k' : Keyboard}
    → SameQueue k k'
    → flags k' ≡ changes what (flags k)
    → IsValid k
    → Does (c ∷ [], what) k (buffer_write k' c)
writes c what {k} {k'} same f v =
    let (e, v') = buffer_write-enqueue k' c (IsValid-same k k' same v) in
    record {
      valid = v';
      queue = e ∙ ap (λ q. enqueue_all q (c ∷ [])) (contents_same k k' same);
      flags_after = flags-buffer_write k' c ∙ f;
    }

pub either :
    {k x y : Keyboard} (b : Bool) {ax ay : Action}
    → Does ax k x
    → Does ay k y
    → Does (if b then ax else ay) k (if b then x else y)
either true p q = p
either false p q = q

-- The new value 0 at an index of the flags.
abbrev pub cleared : ℕ → List ℕ → List ℕ
cleared i [] = []
cleared zero (f ∷ fs) = 0 ∷ fs
cleared (suc i) (f ∷ fs) = f ∷ cleared i fs

changes-cleared :
    (i : ℕ) (what old : List ℕ) → cleared i (changes what old) ≡ changes (cleared i what) old
changes-cleared i [] old = refl
changes-cleared zero (w ∷ ws) [] = refl
changes-cleared (suc i) (w ∷ ws) [] = refl
changes-cleared zero (w ∷ ws) (f ∷ fs) = refl
changes-cleared (suc i) (w ∷ ws) (f ∷ fs) = ap (λ fs. change w f ∷ fs) (changes-cleared i ws fs)

pub without_prefix :
    (a : Action) {k k' : Keyboard}
    → Does a k k'
    → Does (a.0, cleared 4 a.1) k (record k' { extended = 0 })
without_prefix a {k} {k'} d = record {
  valid = IsValid-same k' _ (refl, refl, refl) d.valid;
  queue = d.queue;
  flags_after = ap (cleared 4) d.flags_after ∙ changes-cleared 4 a.1 (flags k);
}
