-- ===== src/Fat/Path.antt =====
-- The path parser of src/disk.c.
use my_kernel.Base.{
  ℕ, ◌+◌, ◌<◌, ◌≤◌, ◌≡◌, ◌⊎◌, refl, ap, sym, ◌∙◌, ◌==◌, ltb, if◌then◌else◌, Bool, true, false, ◌||◌,
  Bool-cases, inl, inr, Option, none, some, List, [], ◌∷◌, length, length-set, set, replicate,
  arith,
}
use my_kernel.Fat.{
  is_slash, upper, skip_slash, read_name, read_ext, read_dot, Node, parse_path_node,
}

length-skip_slash : (path : List ℕ) → length (skip_slash path) ≤ length path
unfolding skip_slash
length-skip_slash [] = omega arith
length-skip_slash (c ∷ path) = ground arith

-- The name keeps its eight bytes, and the rest of the path gets no longer.
read_name-length :
    (i : ℕ) (name path : List ℕ)
    → (length (read_name i name path).0 ≡ length name)
      × (length (read_name i name path).1 ≤ length path)
unfolding read_name
read_name-length i name [] = (refl, omega arith)
read_name-length i name (c ∷ path) = elim (Bool-cases (is_slash c || c == b'.')) [
  | inl stop ↦ rw stop (refl, omega arith)
  | inr go ↦
      let (same, shorter) =
        read_name-length (if ltb i 8 then i + 1 else i)
          (if ltb i 8 then set name i (upper c) else name) path in
      rw go (same ∙ kept (ltb i 8), omega arith)
]
  where
    kept : (b : Bool) → length (if b then set name i (upper c) else name) ≡ length name
    kept true = length-set name i (upper c)
    kept false = refl

read_ext-length :
    (j : ℕ) (ext path : List ℕ)
    → (length (read_ext j ext path).0 ≡ length ext) × (length (read_ext j ext path).1 ≤ length path)
unfolding read_ext
read_ext-length j ext [] = (refl, omega arith)
read_ext-length j ext (c ∷ path) = elim (Bool-cases (is_slash c)) [
  | inl stop ↦ rw stop (refl, omega arith)
  | inr go ↦
      let (same, shorter) =
        read_ext-length (if ltb j 3 then j + 1 else j)
          (if ltb j 3 then set ext j (upper c) else ext) path in
      rw go (same ∙ kept (ltb j 3), omega arith)
]
  where
    kept : (b : Bool) → length (if b then set ext j (upper c) else ext) ≡ length ext
    kept true = length-set ext j (upper c)
    kept false = refl

read_dot-length :
    (path : List ℕ) → (length (read_dot path).0 ≡ 3) × (length (read_dot path).1 ≤ length path)
unfolding read_dot
read_dot-length [] = (refl, omega arith)
read_dot-length (c ∷ path) = ground (arith, read_ext-length 0 (replicate 3 b' ') path)

-- What follows the first byte: a slash is dropped at the end, a dot by the extension, and any other
-- byte by the name.
tail_length :
    (c : ℕ) (rest : List ℕ)
    → length (skip_slash (read_dot (read_name 0 (replicate 8 b' ') (c ∷ rest)).1).1)
      < length (c ∷ rest)
unfolding read_name read_dot skip_slash
tail_length c rest = elim (Bool-cases (is_slash c || c == b'.')) [
  | inr go ↦
      let r = read_name 1 (upper c ∷ replicate 7 b' ') rest in
      rw go (
        omega (
          arith,
          length-skip_slash (read_dot r.1).1,
          (read_dot-length r.1).1,
          (read_name-length 1 (upper c ∷ replicate 7 b' ') rest).1,
        ))
  | inl stop ↦ elim (Bool-cases (c == b'.')) [
    | inl dot ↦
        let r = read_ext 0 (replicate 3 b' ') rest in
        rw (stop, dot)
          (omega (arith, length-skip_slash r.1, (read_ext-length 0 (replicate 3 b' ') rest).1))
    | inr other ↦
        let slash : is_slash c ≡ true = ground arith in rw (stop, other, slash) (omega arith)
  ]
]

List-cases : (xs : List ℕ) → (xs ≡ []) ⊎ ((y : ℕ) × (ys : List ℕ) × (xs ≡ y ∷ ys))
List-cases [] = inl refl
List-cases (x ∷ xs) = inr (x, xs, refl)

-- A node that is read has a name of 8 bytes and an extension of 3, and the path behind it is shorter.
pub parse_path_node-length :
    (path : List ℕ) {node : Node} {rest : List ℕ}
    → parse_path_node path ≡ some (node, rest)
    → (length node.name ≡ 8) × (length node.ext ≡ 3) × (length rest < length path)
unfolding parse_path_node
parse_path_node-length path {node} {rest} e = elim (List-cases (skip_slash path)) [
  | inl empty ↦ ground arith
  | inr (c, cs, more) ↦
      let r = read_name 0 (replicate 8 b' ') (c ∷ cs) in
      let found : parse_path_node path
          ≡ some (record { name = r.0; ext = (read_dot r.1).0 }, skip_slash (read_dot r.1).1) =
        rw (more, parse_path_node) in
      let same : some (record { name = r.0; ext = (read_dot r.1).0 }, skip_slash (read_dot r.1).1)
          ≡ some (node, rest) =
        sym found ∙ e in
      let name : r.0 ≡ node.name = ap node_name same in
      let ext : (read_dot r.1).0 ≡ node.ext = ap node_ext same in
      let behind : skip_slash (read_dot r.1).1 ≡ rest = ap node_rest same in
      (
        ap length (sym name) ∙ (read_name-length 0 (replicate 8 b' ') (c ∷ cs)).0,
        ap length (sym ext) ∙ (read_dot-length r.1).0,
        omega (arith, ap length behind, tail_length c cs, ap length more, length-skip_slash path),
      )
]
  where
    node_name : Option (Node × List ℕ) → List ℕ
    node_name none = []
    node_name (some (n, t)) = n.name

    node_ext : Option (Node × List ℕ) → List ℕ
    node_ext none = []
    node_ext (some (n, t)) = n.ext

    node_rest : Option (Node × List ℕ) → List ℕ
    node_rest none = []
    node_rest (some (n, t)) = t
