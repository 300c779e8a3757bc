-- ===== src/Keyboard/Ring.antt =====
-- The ring of src/keyboard.c as a bounded queue of characters.
use my_kernel.Base.{
  ℕ, ◌+◌, ◌-◌, ◌%◌, ◌<◌, ◌≡◌, ◌≢◌, ◌↔◌, ◌⊎◌, refl, ap, subst, sym, ◌∙◌, ◌==◌, if◌then◌else◌, Bool,
  true, false, not, ◌&&◌, ◌||◌, inl, inr, bit_and, length, set, get_or, length-set, get_or-set_self,
  get_or-set_ne, arith, ==_iff, ne→not_==, ℕ_discrete,
}
use my_kernel.Keyboard.{Keyboard, is_arrow, char_of, push, keyboard_handler_main, get_keyboard_char}

-- How many characters wait, and the one at position `i`, the oldest first.
abbrev pub waiting : Keyboard → ℕ
waiting k = (k.head + 256 - k.tail) % 256

abbrev pub char_at : Keyboard → ℕ → ℕ
char_at k i = get_or k.buffer ((k.tail + i) % 256) 0

-- The storage is whole, the indices are in it, and no character that waits is 0.
pub record IsValid (k : Keyboard) : Type 0 where
  pub storage : length k.buffer ≡ 256
  pub head_in : k.head < 256
  pub tail_in : k.tail < 256
  pub chars : (i : ℕ) → i < waiting k → char_at k i ≢ 0

-- What storing the character `c` makes of the ring: nothing when it is 0 or 255 characters wait,
-- else one more at the end.
abbrev pub Pushed : ℕ → Keyboard → Keyboard → Type 0
Pushed c k after =
    (((c ≡ 0) ⊎ (waiting k ≡ 255)) × (after ≡ k))
    ⊎ ((c ≢ 0)
        × (waiting k < 255)
        × (waiting after ≡ waiting k + 1)
        × ((i : ℕ) → i < waiting k → char_at after i ≡ char_at k i)
        × (char_at after (waiting k) ≡ c))

kept :
    {k : Keyboard} {s t : Bool}
    → IsValid k
    → IsValid (record k { shift_pressed = s; ctrl_pressed = t })
kept v = record { storage = v.storage; head_in = v.head_in; tail_in = v.tail_in; chars = v.chars }

module _ (c : ℕ) (k : Keyboard) (v : IsValid k) where
  stored :
      c ≢ 0
      → (k.head + 1) % 256 ≢ k.tail
      → (after : Keyboard)
      → after ≡ record k { buffer = set k.buffer k.head c; head = (k.head + 1) % 256 }
      → IsValid after × Pushed c k after
  stored some_char room after is =
      let more : waiting (record k { buffer = set k.buffer k.head c; head = (k.head + 1) % 256 })
          ≡ waiting k + 1 =
        omega (arith, v.head_in, v.tail_in) in
      let old : (i : ℕ)
          → i < waiting k
          → get_or (set k.buffer k.head c) ((k.tail + i) % 256) 0 ≡ char_at k i =
        λ i lt.
          get_or-set_ne k.buffer k.head ((k.tail + i) % 256) c 0
            (omega (arith, v.head_in, v.tail_in)) in
      let end : (k.tail + waiting k) % 256 ≡ k.head = omega (arith, v.head_in, v.tail_in) in
      let new : get_or (set k.buffer k.head c) ((k.tail + waiting k) % 256) 0 ≡ c =
        rw (end, get_or-set_self k.buffer k.head c 0 (omega (arith, v.storage, v.head_in))) in
      subst (λ a. IsValid a × Pushed c k a) (sym is)
        (
          record {
            storage = length-set k.buffer k.head c ∙ v.storage;
            head_in = omega arith;
            tail_in = v.tail_in;
            chars = λ i lt. elim (ℕ_discrete i (waiting k)) [
              | yes last ↦ λ zero_char. some_char (
                  sym new
                  ∙ ap (λ j. get_or (set k.buffer k.head c) ((k.tail + j) % 256) 0) (sym last)
                  ∙ zero_char)
              | no ne ↦ λ zero_char. v.chars i (omega arith) (sym (old i (omega arith)) ∙ zero_char)
            ];
          },
          inr (some_char, omega (arith, v.head_in, v.tail_in), more, old, new),
        )

  push-Pushed : IsValid (push c k) × Pushed c k (push c k)
  unfolding push
  push-Pushed = elim (ℕ_discrete c 0) [
    | yes none_typed ↦ rw ((==_iff c 0).1 none_typed) (v, inl (inl none_typed, refl))
    | no some_char ↦ elim (ℕ_discrete ((k.head + 1) % 256) k.tail) [
      | yes full ↦
          rw (ne→not_== c 0 some_char, (==_iff _ _).1 full)
            (v, inl (inr (omega (arith, v.head_in, v.tail_in)), refl))
      | no room ↦ rw (ne→not_== c 0 some_char, ne→not_== _ _ room) (stored some_char room _ refl)
    ]
  ]

-- Taking a character from a valid ring leaves it valid. The result is 0 exactly when no character
-- waits; else it is the oldest one, and the others move up by one.
pub get_keyboard_char_lem :
    (k : Keyboard)
    → IsValid k
    → IsValid (get_keyboard_char k).1
      × (((get_keyboard_char k).0 ≡ 0) ↔ (waiting k ≡ 0))
      × ((waiting k ≡ 0)
          ⊎ (((get_keyboard_char k).0 ≡ char_at k 0)
              × (waiting (get_keyboard_char k).1 + 1 ≡ waiting k)
              × ((i : ℕ)
                  → i < waiting (get_keyboard_char k).1
                  → char_at (get_keyboard_char k).1 i ≡ char_at k (i + 1))))
unfolding get_keyboard_char
get_keyboard_char_lem k v = elim (ℕ_discrete k.head k.tail) [
  | yes empty ↦
      let no_char : waiting k ≡ 0 = omega (arith, v.tail_in) in
      rw ((==_iff _ _).1 empty) (v, (λ _. no_char, λ _. refl), inl no_char)
  | no some_char ↦
      let first : k.tail ≡ (k.tail + 0) % 256 = omega (arith, v.tail_in) in
      let front : get_or k.buffer k.tail 0 ≡ char_at k 0 = ap (λ j. get_or k.buffer j 0) first in
      let real : char_at k 0 ≢ 0 = v.chars 0 (omega (arith, v.head_in, v.tail_in)) in
      let up : (i : ℕ) → ((k.tail + 1) % 256 + i) % 256 ≡ (k.tail + (i + 1)) % 256 =
        λ i. omega arith in
      let fewer : (k.head + 256 - (k.tail + 1) % 256) % 256 + 1 ≡ waiting k =
        omega (arith, v.head_in, v.tail_in) in
      let moved : (i : ℕ) → get_or k.buffer (((k.tail + 1) % 256 + i) % 256) 0 ≡ char_at k (i + 1) =
        λ i. ap (λ j. get_or k.buffer j 0) (up i) in
      rw (ne→not_== _ _ some_char) (
        record {
          storage = v.storage;
          head_in = v.head_in;
          tail_in = omega arith;
          chars = λ i lt zero_char. v.chars (i + 1) (omega arith) (sym (moved i) ∙ zero_char);
        },
        (
          (λ zero_char. absurd (real (sym front ∙ zero_char))),
          λ no_char. absurd (omega (arith, v.head_in, v.tail_in)),
        ),
        inr (front, fewer, λ i lt. moved i),
      )
]

-- A released or pressed shift or control key.
abbrev pub is_modifier : ℕ → Bool
is_modifier scancode =
    (not (is_arrow scancode) && (scancode == 0xAA || scancode == 0xB6))
    || (not (is_arrow scancode) && scancode == 0x9D)
    || (scancode == 0x2A || scancode == 0x36)
    || scancode == 0x1D

-- A code of a key that may give a character: no shift or control key, and not a released key.
abbrev pub is_char_key : ℕ → Bool
is_char_key scancode =
    not (is_modifier scancode) && not (not (is_arrow scancode) && not (bit_and scancode 0x80 == 0))

abbrev pub SameRing : Keyboard → Keyboard → Type 0
SameRing k after = (after.buffer ≡ k.buffer) × (after.head ≡ k.head) × (after.tail ≡ k.tail)

-- What the handler makes of the ring.
abbrev pub Handled : ℕ → ℕ → Keyboard → Keyboard → Type 0
Handled status scancode k after =
    ((bit_and status 0x01 ≢ 0)
      × (is_char_key scancode ≡ true)
      × Pushed (char_of scancode k) k after)
    ⊎ (((bit_and status 0x01 ≡ 0) ⊎ (is_char_key scancode ≡ false)) × SameRing k after)

-- The choices of the handler, by the answers to its questions.
dispatch :
    (k pushed : Keyboard) (shift_up ctrl_up shift_down ctrl_down released : Bool)
    → IsValid k
    → IsValid pushed
    → let after =
        if shift_up
        then record k { shift_pressed = false }
        else (if ctrl_up
            then record k { ctrl_pressed = false }
            else (if shift_down
                then record k { shift_pressed = true }
                else (if ctrl_down
                    then record k { ctrl_pressed = true }
                    else (if released then k else pushed)))) in
      let key = not (shift_up || ctrl_up || shift_down || ctrl_down) && not released in
      IsValid after × (((key ≡ true) × (after ≡ pushed)) ⊎ ((key ≡ false) × SameRing k after))
dispatch k pushed true b c d e v w = (kept v, inr (refl, (refl, refl, refl)))
dispatch k pushed false true c d e v w = (kept v, inr (refl, (refl, refl, refl)))
dispatch k pushed false false true d e v w = (kept v, inr (refl, (refl, refl, refl)))
dispatch k pushed false false false true e v w = (kept v, inr (refl, (refl, refl, refl)))
dispatch k pushed false false false false true v w = (v, inr (refl, (refl, refl, refl)))
dispatch k pushed false false false false false v w = (w, inl (refl, refl))

-- The handler keeps a valid ring valid. When the controller has a byte, and it is the code of a
-- pressed key other than shift and control, the key's character is stored at the end of the ring,
-- unless it is 0 or 255 characters wait; in every other case the ring stays as it is.
pub keyboard_handler_main_lem :
    (status scancode : ℕ) (k : Keyboard)
    → IsValid k
    → IsValid (keyboard_handler_main status scancode k)
      × Handled status scancode k (keyboard_handler_main status scancode k)
unfolding keyboard_handler_main
keyboard_handler_main_lem status scancode k v = elim (ℕ_discrete (bit_and status 0x01) 0) [
  | yes idle ↦ rw ((==_iff _ _).1 idle) (v, inr (inl idle, (refl, refl, refl)))
  | no byte ↦
      let (w, put_in) = push-Pushed (char_of scancode k) k v in
      let (valid, how) =
        dispatch k (push (char_of scancode k) k)
          (not (is_arrow scancode) && (scancode == 0xAA || scancode == 0xB6))
          (not (is_arrow scancode) && scancode == 0x9D) (scancode == 0x2A || scancode == 0x36)
          (scancode == 0x1D) (not (is_arrow scancode) && not (bit_and scancode 0x80 == 0)) v w in
      rw (ne→not_== _ 0 byte) (
        valid,
        elim how [
          | inl (key, is) ↦ inl (byte, key, subst (Pushed (char_of scancode k) k) (sym is) put_in)
          | inr (other, same) ↦ inr (inr other, same)
        ],
      )
]
