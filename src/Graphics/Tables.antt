-- ===== src/Graphics/Tables.antt =====
-- The 8 by 8 font of src/font.h and the pointer of src/cursor.h, row by row.
use my_kernel.Base.{ℕ, List, [], ◌∷◌, ◌++◌, replicate}

abbrev row8 : ℕ → ℕ → ℕ → ℕ → ℕ → ℕ → ℕ → ℕ → List ℕ
row8 a b c d e f g h = a ∷ b ∷ c ∷ d ∷ e ∷ f ∷ g ∷ h ∷ []

-- The glyphs of the characters from 32 on.
abbrev pub printable : List (List ℕ)
printable =
    row8 0x00 0x00 0x00 0x00 0x00 0x00 0x00 0x00
    ∷ row8 0x18 0x3C 0x3C 0x18 0x18 0x00 0x18 0x00
    ∷ row8 0x6C 0x6C 0x00 0x00 0x00 0x00 0x00 0x00
    ∷ row8 0x36 0x36 0x7F 0x36 0x7F 0x36 0x36 0x00
    ∷ row8 0x08 0x3E 0x03 0x1E 0x30 0x3E 0x08 0x00
    ∷ row8 0x00 0x63 0x33 0x18 0x0C 0x66 0x63 0x00
    ∷ row8 0x1C 0x36 0x1C 0x3A 0x6E 0x66 0x3B 0x00
    ∷ row8 0x18 0x18 0x30 0x00 0x00 0x00 0x00 0x00
    ∷ row8 0x0E 0x1C 0x38 0x38 0x38 0x1C 0x0E 0x00
    ∷ row8 0x70 0x38 0x1C 0x1C 0x1C 0x38 0x70 0x00
    ∷ row8 0x00 0x18 0x7E 0x3C 0x7E 0x18 0x00 0x00
    ∷ row8 0x00 0x18 0x18 0x7E 0x18 0x18 0x00 0x00
    ∷ row8 0x00 0x00 0x00 0x00 0x00 0x18 0x18 0x30
    ∷ row8 0x00 0x00 0x00 0x7E 0x00 0x00 0x00 0x00
    ∷ row8 0x00 0x00 0x00 0x00 0x00 0x18 0x18 0x00
    ∷ row8 0x00 0x06 0x0C 0x18 0x30 0x60 0x00 0x00
    ∷ row8 0x3C 0x66 0x66 0x6E 0x76 0x66 0x3C 0x00
    ∷ row8 0x18 0x38 0x18 0x18 0x18 0x18 0x7E 0x00
    ∷ row8 0x3C 0x66 0x06 0x1C 0x30 0x66 0x7E 0x00
    ∷ row8 0x3C 0x66 0x06 0x1C 0x06 0x66 0x3C 0x00
    ∷ row8 0x0C 0x1C 0x3C 0x6C 0x7E 0x0C 0x0C 0x00
    ∷ row8 0x7E 0x60 0x7C 0x06 0x06 0x66 0x3C 0x00
    ∷ row8 0x1C 0x30 0x60 0x7C 0x66 0x66 0x3C 0x00
    ∷ row8 0x7E 0x06 0x06 0x0C 0x18 0x18 0x18 0x00
    ∷ row8 0x3C 0x66 0x66 0x3C 0x66 0x66 0x3C 0x00
    ∷ row8 0x3C 0x66 0x66 0x3E 0x06 0x0C 0x38 0x00
    ∷ row8 0x00 0x18 0x18 0x00 0x00 0x18 0x18 0x00
    ∷ row8 0x00 0x18 0x18 0x00 0x00 0x18 0x18 0x30
    ∷ row8 0x00 0x0C 0x18 0x30 0x18 0x0C 0x00 0x00
    ∷ row8 0x00 0x00 0x7E 0x00 0x7E 0x00 0x00 0x00
    ∷ row8 0x00 0x30 0x18 0x0C 0x18 0x30 0x00 0x00
    ∷ row8 0x3C 0x66 0x06 0x1C 0x18 0x00 0x18 0x00
    ∷ row8 0x3C 0x66 0x6E 0x6E 0x60 0x66 0x3C 0x00
    ∷ row8 0x18 0x3C 0x66 0x66 0x7E 0x66 0x66 0x00
    ∷ row8 0x7C 0x66 0x66 0x7C 0x66 0x66 0x7C 0x00
    ∷ row8 0x3C 0x66 0x60 0x60 0x60 0x66 0x3C 0x00
    ∷ row8 0x78 0x6C 0x66 0x66 0x66 0x6C 0x78 0x00
    ∷ row8 0x7E 0x60 0x60 0x78 0x60 0x60 0x7E 0x00
    ∷ row8 0x7E 0x60 0x60 0x78 0x60 0x60 0x60 0x00
    ∷ row8 0x3C 0x66 0x60 0x6E 0x66 0x66 0x3E 0x00
    ∷ row8 0x66 0x66 0x66 0x7E 0x66 0x66 0x66 0x00
    ∷ row8 0x3C 0x18 0x18 0x18 0x18 0x18 0x3C 0x00
    ∷ row8 0x06 0x06 0x06 0x06 0x06 0x66 0x3C 0x00
    ∷ row8 0x66 0x6C 0x78 0x70 0x78 0x6C 0x66 0x00
    ∷ row8 0x60 0x60 0x60 0x60 0x60 0x60 0x7E 0x00
    ∷ row8 0x63 0x77 0x7F 0x6B 0x63 0x63 0x63 0x00
    ∷ row8 0x66 0x76 0x7E 0x7E 0x6E 0x66 0x66 0x00
    ∷ row8 0x3C 0x66 0x66 0x66 0x66 0x66 0x3C 0x00
    ∷ row8 0x7C 0x66 0x66 0x7C 0x60 0x60 0x60 0x00
    ∷ row8 0x3C 0x66 0x66 0x66 0x6A 0x6C 0x3A 0x00
    ∷ row8 0x7C 0x66 0x66 0x7C 0x6C 0x66 0x66 0x00
    ∷ row8 0x3C 0x66 0x60 0x3C 0x06 0x66 0x3C 0x00
    ∷ row8 0x7E 0x18 0x18 0x18 0x18 0x18 0x18 0x00
    ∷ row8 0x66 0x66 0x66 0x66 0x66 0x66 0x3C 0x00
    ∷ row8 0x66 0x66 0x66 0x66 0x66 0x3C 0x18 0x00
    ∷ row8 0x63 0x63 0x63 0x6B 0x7F 0x77 0x63 0x00
    ∷ row8 0x66 0x66 0x3C 0x18 0x3C 0x66 0x66 0x00
    ∷ row8 0x66 0x66 0x66 0x3C 0x18 0x18 0x18 0x00
    ∷ row8 0x7E 0x06 0x0C 0x18 0x30 0x60 0x7E 0x00
    ∷ row8 0x3E 0x30 0x30 0x30 0x30 0x30 0x3E 0x00
    ∷ row8 0x00 0x60 0x30 0x18 0x0C 0x06 0x00 0x00
    ∷ row8 0x7C 0x0C 0x0C 0x0C 0x0C 0x0C 0x7C 0x00
    ∷ row8 0x18 0x3C 0x66 0x00 0x00 0x00 0x00 0x00
    ∷ row8 0x00 0x00 0x00 0x00 0x00 0x00 0xFF 0x00
    ∷ row8 0x30 0x18 0x0C 0x00 0x00 0x00 0x00 0x00
    ∷ row8 0x00 0x00 0x3C 0x06 0x3E 0x66 0x3E 0x00
    ∷ row8 0x60 0x60 0x7C 0x66 0x66 0x66 0x7C 0x00
    ∷ row8 0x00 0x00 0x3C 0x66 0x60 0x66 0x3C 0x00
    ∷ row8 0x06 0x06 0x3E 0x66 0x66 0x66 0x3E 0x00
    ∷ row8 0x00 0x00 0x3C 0x66 0x7E 0x60 0x3C 0x00
    ∷ row8 0x1C 0x30 0x30 0x7C 0x30 0x30 0x30 0x00
    ∷ row8 0x00 0x00 0x3E 0x66 0x66 0x3E 0x06 0x3C
    ∷ row8 0x60 0x60 0x7C 0x66 0x66 0x66 0x66 0x00
    ∷ row8 0x18 0x00 0x38 0x18 0x18 0x18 0x3C 0x00
    ∷ row8 0x06 0x00 0x16 0x06 0x06 0x66 0x3C 0x00
    ∷ row8 0x60 0x60 0x66 0x6C 0x78 0x6C 0x66 0x00
    ∷ row8 0x38 0x18 0x18 0x18 0x18 0x18 0x3C 0x00
    ∷ row8 0x00 0x00 0x76 0x7F 0x6B 0x6B 0x6B 0x00
    ∷ row8 0x00 0x00 0x7C 0x66 0x66 0x66 0x66 0x00
    ∷ row8 0x00 0x00 0x3C 0x66 0x66 0x66 0x3C 0x00
    ∷ row8 0x00 0x00 0x7C 0x66 0x66 0x7C 0x60 0x60
    ∷ row8 0x00 0x00 0x3E 0x66 0x66 0x3E 0x06 0x06
    ∷ row8 0x00 0x00 0x7C 0x66 0x60 0x60 0x60 0x00
    ∷ row8 0x00 0x00 0x3E 0x60 0x3C 0x06 0x7C 0x00
    ∷ row8 0x30 0x30 0x7C 0x30 0x30 0x30 0x1C 0x00
    ∷ row8 0x00 0x00 0x66 0x66 0x66 0x66 0x3E 0x00
    ∷ row8 0x00 0x00 0x66 0x66 0x66 0x3C 0x18 0x00
    ∷ row8 0x00 0x00 0x63 0x6B 0x7F 0x3E 0x36 0x00
    ∷ row8 0x00 0x00 0x66 0x3C 0x18 0x3C 0x66 0x00
    ∷ row8 0x00 0x00 0x66 0x66 0x66 0x3E 0x06 0x3C
    ∷ row8 0x00 0x00 0x7E 0x0C 0x18 0x30 0x7E 0x00
    ∷ row8 0x1C 0x30 0x30 0x60 0x30 0x30 0x1C 0x00
    ∷ row8 0x18 0x18 0x18 0x00 0x18 0x18 0x18 0x00
    ∷ row8 0x38 0x0C 0x0C 0x06 0x0C 0x0C 0x38 0x00
    ∷ row8 0x00 0x34 0x58 0x00 0x00 0x00 0x00 0x00
    ∷ row8 0x00 0x00 0x00 0x00 0x00 0x00 0x00 0x00
    ∷ []

-- The characters in front of the blank have no dots.
abbrev pub font8x8 : List (List ℕ)
font8x8 = replicate 32 (replicate 8 0) ++ printable

abbrev pub arrow_cursor : List (List ℕ)
arrow_cursor =
    (1 ∷ 1 ∷ 0 ∷ 0 ∷ 0 ∷ 0 ∷ 0 ∷ 0 ∷ 0 ∷ 0 ∷ 0 ∷ 0 ∷ 0 ∷ 0 ∷ 0 ∷ 0 ∷ [])
    ∷ (1 ∷ 2 ∷ 1 ∷ 0 ∷ 0 ∷ 0 ∷ 0 ∷ 0 ∷ 0 ∷ 0 ∷ 0 ∷ 0 ∷ 0 ∷ 0 ∷ 0 ∷ 0 ∷ [])
    ∷ (1 ∷ 2 ∷ 2 ∷ 1 ∷ 0 ∷ 0 ∷ 0 ∷ 0 ∷ 0 ∷ 0 ∷ 0 ∷ 0 ∷ 0 ∷ 0 ∷ 0 ∷ 0 ∷ [])
    ∷ (1 ∷ 2 ∷ 2 ∷ 2 ∷ 1 ∷ 0 ∷ 0 ∷ 0 ∷ 0 ∷ 0 ∷ 0 ∷ 0 ∷ 0 ∷ 0 ∷ 0 ∷ 0 ∷ [])
    ∷ (1 ∷ 2 ∷ 2 ∷ 2 ∷ 2 ∷ 1 ∷ 0 ∷ 0 ∷ 0 ∷ 0 ∷ 0 ∷ 0 ∷ 0 ∷ 0 ∷ 0 ∷ 0 ∷ [])
    ∷ (1 ∷ 2 ∷ 2 ∷ 2 ∷ 2 ∷ 2 ∷ 1 ∷ 0 ∷ 0 ∷ 0 ∷ 0 ∷ 0 ∷ 0 ∷ 0 ∷ 0 ∷ 0 ∷ [])
    ∷ (1 ∷ 2 ∷ 2 ∷ 2 ∷ 2 ∷ 2 ∷ 2 ∷ 1 ∷ 0 ∷ 0 ∷ 0 ∷ 0 ∷ 0 ∷ 0 ∷ 0 ∷ 0 ∷ [])
    ∷ (1 ∷ 2 ∷ 2 ∷ 2 ∷ 2 ∷ 2 ∷ 2 ∷ 2 ∷ 1 ∷ 0 ∷ 0 ∷ 0 ∷ 0 ∷ 0 ∷ 0 ∷ 0 ∷ [])
    ∷ (1 ∷ 2 ∷ 2 ∷ 2 ∷ 2 ∷ 2 ∷ 2 ∷ 2 ∷ 2 ∷ 1 ∷ 0 ∷ 0 ∷ 0 ∷ 0 ∷ 0 ∷ 0 ∷ [])
    ∷ (1 ∷ 2 ∷ 2 ∷ 2 ∷ 2 ∷ 2 ∷ 2 ∷ 2 ∷ 2 ∷ 2 ∷ 1 ∷ 0 ∷ 0 ∷ 0 ∷ 0 ∷ 0 ∷ [])
    ∷ (1 ∷ 2 ∷ 2 ∷ 2 ∷ 2 ∷ 2 ∷ 2 ∷ 1 ∷ 1 ∷ 1 ∷ 1 ∷ 0 ∷ 0 ∷ 0 ∷ 0 ∷ 0 ∷ [])
    ∷ (1 ∷ 2 ∷ 2 ∷ 1 ∷ 2 ∷ 2 ∷ 1 ∷ 0 ∷ 0 ∷ 0 ∷ 0 ∷ 0 ∷ 0 ∷ 0 ∷ 0 ∷ 0 ∷ [])
    ∷ (1 ∷ 2 ∷ 1 ∷ 0 ∷ 1 ∷ 2 ∷ 2 ∷ 1 ∷ 0 ∷ 0 ∷ 0 ∷ 0 ∷ 0 ∷ 0 ∷ 0 ∷ 0 ∷ [])
    ∷ (1 ∷ 1 ∷ 0 ∷ 0 ∷ 1 ∷ 2 ∷ 2 ∷ 1 ∷ 0 ∷ 0 ∷ 0 ∷ 0 ∷ 0 ∷ 0 ∷ 0 ∷ 0 ∷ [])
    ∷ (1 ∷ 0 ∷ 0 ∷ 0 ∷ 0 ∷ 1 ∷ 2 ∷ 2 ∷ 1 ∷ 0 ∷ 0 ∷ 0 ∷ 0 ∷ 0 ∷ 0 ∷ 0 ∷ [])
    ∷ (0 ∷ 0 ∷ 0 ∷ 0 ∷ 0 ∷ 0 ∷ 1 ∷ 1 ∷ 0 ∷ 0 ∷ 0 ∷ 0 ∷ 0 ∷ 0 ∷ 0 ∷ 0 ∷ [])
    ∷ []
