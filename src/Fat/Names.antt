-- ===== src/Fat/Names.antt =====
-- Names in 8.3 form through the path parser of src/disk.c.
use my_kernel.Base.{
  ℕ, zero, suc, ◌+◌, ◌<◌, ◌≤◌, ◌≡◌, refl, ap, ◌∙◌, ◌==◌, ltb, Bool, true, false, ◌||◌, some, List,
  [], ◌∷◌, ◌++◌, append_assoc, length, length-append, set, replicate, arith, All, lt→ltb,
}
use my_kernel.Fat.{is_slash, upper, skip_slash, read_name, read_dot, parse_path_node}

set-append_at : (xs ys : List ℕ) (y u : ℕ) → set (xs ++ y ∷ ys) (length xs) u ≡ xs ++ u ∷ ys
set-append_at [] ys y u = refl
set-append_at (x ∷ xs) ys y u = ap (λ t. x ∷ t) (set-append_at xs ys y u)

-- A field of `n` bytes: the text in upper case, then blanks.
abbrev pub padded : ℕ → List ℕ → List ℕ
padded n [] = replicate n b' '
padded zero (c ∷ cs) = []
padded (suc n) (c ∷ cs) = upper c ∷ padded n cs

-- Bytes that end neither a name nor an extension.
abbrev pub Plain : List ℕ → Type 0
Plain = All (λ c. (is_slash c || c == b'.') ≡ false)

-- The end of the path, or a byte that ends the name.
abbrev pub Stops : List ℕ → Type 0
Stops [] = Unit
Stops (c ∷ cs) = (is_slash c || c == b'.') ≡ true

module _ (stop : List ℕ) (ends : Stops stop) where
  read_name_stop : (i : ℕ) (name s : List ℕ) → Stops s → read_name i name s ≡ (name, s)
  unfolding read_name
  read_name_stop i name [] e = refl
  read_name_stop i name (c ∷ cs) e = rw e

  read_name-padded :
      (m : ℕ) (front name : List ℕ)
      → length front + m ≡ 8
      → length name ≤ m
      → Plain name
      → read_name (length front) (front ++ replicate m b' ') (name ++ stop)
        ≡ (front ++ padded m name, stop)
  unfolding read_name
  read_name-padded m front [] fits short plain =
      read_name_stop (length front) (front ++ replicate m b' ') stop ends
  read_name-padded zero front (c ∷ cs) fits short plain = absurd (omega arith)
  read_name-padded (suc m) front (c ∷ cs) fits short plain =
      let room : ltb (length front) 8 ≡ true = lt→ltb _ _ (omega arith) in
      let next : length front + 1 ≡ length (front ++ upper c ∷ []) =
        omega (arith, length-append front (upper c ∷ [])) in
      rw
        (
          plain.0,
          room,
          set-append_at front (replicate m b' ') b' ' (upper c),
          next,
          ← append_assoc front (upper c ∷ []) (replicate m b' '),
        )
        (read_name-padded m (front ++ upper c ∷ []) cs
            (omega (arith, length-append front (upper c ∷ []))) (omega arith) plain.1
          ∙ rw (append_assoc front (upper c ∷ []) (padded m cs)))

no_slash : (a b : Bool) → (a || b) ≡ false → a ≡ false
no_slash true b e = e
no_slash false b e = refl

-- A path that starts with a folder's name, of one to eight bytes that are no dot and no slash, and a
-- slash: the node is the name in upper case, with blanks behind it, and no extension, and the path goes on
-- behind the slash.
pub parse_path_node-folder :
    (c : ℕ) (cs rest : List ℕ)
    → Plain (c ∷ cs)
    → length cs < 8
    → parse_path_node ((c ∷ cs) ++ b'/' ∷ rest)
      ≡ some (record { name = padded 8 (c ∷ cs); ext = replicate 3 b' ' }, rest)
unfolding parse_path_node skip_slash read_dot
parse_path_node-folder c cs rest plain short =
    let start : is_slash c ≡ false = no_slash (is_slash c) (c == b'.') plain.0 in
    let read : read_name 0 (replicate 8 b' ') (c ∷ (cs ++ b'/' ∷ rest))
        ≡ (padded 8 (c ∷ cs), b'/' ∷ rest) =
      read_name-padded (b'/' ∷ rest) refl 8 [] (c ∷ cs) refl (omega arith) plain in
    rw (start, read, parse_path_node, skip_slash) refl
