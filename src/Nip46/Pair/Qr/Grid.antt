-- ===== src/Nip46/Pair/Qr/Grid.antt =====
-- src/nip46/pair.rs: what the lines of a rendered QR code show.
use narwal_publisher.Prelude.{ltb}
use narwal_publisher.Prelude.{
  ℕ, zero, suc, ◌+◌, ◌/◌, ◌≡◌, ◌≢◌, refl, ap, ap₂, ◌∙◌, List, [], ◌∷◌, ◌++◌, map, Bool, true, false,
  ◌||◌, Text, replicate, ◌==◌, arith, All, All-append, append_assoc, if◌then◌else◌,
}
use narwal_publisher.Nip46.Pair.Qr.{
  QrCode, glyph, bottom, row_from, row, rows_from, quiet_row, render,
}

-- the two modules of a glyph, upper and lower
abbrev pub Cell : Type 0
Cell = Bool × Bool

abbrev pub light : Cell
light = (false, false)

-- the glyphs of a line: a space, or three bytes of which the last tells the block
unfoldable pub read_line : Text → List Cell
read_line [] = []
read_line (a ∷ []) = light ∷ []
read_line (a ∷ b ∷ []) = light ∷ light ∷ []
read_line (a ∷ b ∷ c ∷ rest) = elim (a == 32) [
  | true ↦ light ∷ read_line (b ∷ c ∷ rest)
  | false ↦ (c == 136 || c == 128, c == 136 || c == 132) ∷ read_line rest
]

abbrev prefix_line : ℕ → List Text → List Text
prefix_line c [] = (c ∷ []) ∷ []
prefix_line c (l ∷ ls) = (c ∷ l) ∷ ls

-- the lines of a text, each ended by a line break
unfoldable pub lines_of : Text → List Text
lines_of [] = []
lines_of (c ∷ cs) = let rest = lines_of cs in if c == 10 then [] ∷ rest else prefix_line c rest

-- a module of the code, or of the margin below it
abbrev pub shown : QrCode → ℕ → ℕ → Bool
shown code x y = if ltb y code.width then code.dark x y else false

-- the cells of `n` columns from `x` on, and of a row
abbrev pub cells_from : QrCode → ℕ → ℕ → ℕ → List Cell
cells_from code zero x y = []
cells_from code (suc n) x y = (code.dark x y, shown code x (y + 1)) ∷ cells_from code n (suc x) y

abbrev pub cells_of : QrCode → ℕ → List Cell
cells_of code y = light ∷ (cells_from code code.width 0 y ++ light ∷ [])

-- every second row, `n` of them from `y` on
abbrev pub grid_from : QrCode → ℕ → ℕ → List (List Cell)
grid_from code zero y = []
grid_from code (suc n) y = cells_of code y ∷ grid_from code n (y + 2)

read_line-glyph :
    (t b : Bool) (rest : Text) → read_line (glyph t b ++ rest) ≡ (t, b) ∷ read_line rest
unfolding read_line glyph
read_line-glyph true true rest = refl
read_line-glyph true false rest = refl
read_line-glyph false true rest = refl
read_line-glyph false false [] = refl
read_line-glyph false false (a ∷ []) = refl
read_line-glyph false false (a ∷ b ∷ rest) = refl

module _ (code : QrCode) where
  bottom-shown : (x y : ℕ) → bottom code x y ≡ shown code x (y + 1)
  bottom-shown x y = ground arith

  read_line-row_from :
      (n x y : ℕ) (rest : Text)
      → read_line (row_from code n x y ++ rest) ≡ cells_from code n x y ++ read_line rest
  unfolding row_from
  read_line-row_from zero x y rest = refl
  read_line-row_from (suc n) x y rest =
      ap read_line
        (append_assoc (glyph (code.dark x y) (bottom code x y)) (row_from code n (suc x) y) rest)
      ∙ read_line-glyph (code.dark x y) (bottom code x y) (row_from code n (suc x) y ++ rest)
      ∙ ap₂ ◌∷◌ (ap (λ b. (code.dark x y, b)) (bottom-shown x y))
          (read_line-row_from n (suc x) y rest)

  read_line-row : (y : ℕ) → read_line (row code y) ≡ cells_of code y
  unfolding row read_line
  read_line-row y =
      read_line-glyph false false (row_from code code.width 0 y ++ 32 ∷ [])
      ∙ ap (◌∷◌ light) (read_line-row_from code.width 0 y (32 ∷ []))

  read_line-spaces : (n : ℕ) → read_line (replicate n 32) ≡ replicate n light
  unfolding read_line glyph
  read_line-spaces zero = refl
  read_line-spaces (suc n) =
      read_line-glyph false false (replicate n 32) ∙ ap (◌∷◌ light) (read_line-spaces n)

  -- no line break inside a line
  abbrev Unbroken : Text → Type 0
  Unbroken = All (λ c. c ≢ 10)

  Unbroken-glyph : (t b : Bool) → Unbroken (glyph t b)
  unfolding glyph
  Unbroken-glyph true true = omega arith
  Unbroken-glyph true false = omega arith
  Unbroken-glyph false true = omega arith
  Unbroken-glyph false false = omega arith

  Unbroken-row_from : (n x y : ℕ) → Unbroken (row_from code n x y)
  unfolding row_from
  Unbroken-row_from zero x y = tt
  Unbroken-row_from (suc n) x y =
      All-append (λ c. c ≢ 10) (glyph (code.dark x y) (bottom code x y)) (row_from code n (suc x) y)
        (Unbroken-glyph (code.dark x y) (bottom code x y)) (Unbroken-row_from n (suc x) y)

  Unbroken-row : (y : ℕ) → Unbroken (row code y)
  unfolding row
  Unbroken-row y = (
    omega arith,
    All-append (λ c. c ≢ 10) (row_from code code.width 0 y) (32 ∷ [])
        (Unbroken-row_from code.width 0 y) (omega arith),
  )

  Unbroken-spaces : (n : ℕ) → Unbroken (replicate n 32)
  Unbroken-spaces zero = tt
  Unbroken-spaces (suc n) = (omega arith, Unbroken-spaces n)

  lines_of-append :
      (line rest : Text) → Unbroken line → lines_of (line ++ 10 ∷ rest) ≡ line ∷ lines_of rest
  unfolding lines_of
  lines_of-append [] rest h = refl
  lines_of-append (c ∷ line) rest h = ground (arith, lines_of-append line rest h.1, h.0)

  read_rows :
      (n y : ℕ) (rest : Text)
      → map read_line (lines_of (rows_from code n y ++ rest))
        ≡ grid_from code n y ++ map read_line (lines_of rest)
  unfolding rows_from
  read_rows zero y rest = refl
  read_rows (suc n) y rest =
      ap (λ t. map read_line (lines_of t))
        (append_assoc (row code y) (10 ∷ rows_from code n (y + 2)) rest)
      ∙ ap (map read_line)
          (lines_of-append (row code y) (rows_from code n (y + 2) ++ rest) (Unbroken-row y))
      ∙ ap₂ ◌∷◌ (read_line-row y) (read_rows n (y + 2) rest)

  abbrev pub blank : List Cell
  blank = replicate (code.width + 2) light

  -- Read line by line, with each glyph as two modules one above the other, the rendering of a QR code
  -- is a blank line, then every module of the code in its place, two rows to a line between two blank
  -- columns, and a blank line. The second row of the last line is blank where the side is odd.
  pub read_line-render :
      map read_line (lines_of (render code))
      ≡ blank ∷ (grid_from code ((code.width + 1) / 2) 0 ++ blank ∷ [])
  unfolding render quiet_row lines_of
  read_line-render =
      let spaces = replicate (code.width + 2) 32 in
      let n = (code.width + 1) / 2 in
      ap (map read_line) (
        lines_of-append spaces (rows_from code n 0 ++ (spaces ++ 10 ∷ []))
          (Unbroken-spaces (code.width + 2)))
      ∙ ap₂ ◌∷◌ (read_line-spaces (code.width + 2)) (
          read_rows n 0 (spaces ++ 10 ∷ [])
          ∙ ap (λ ls. grid_from code n 0 ++ map read_line ls)
              (lines_of-append spaces [] (Unbroken-spaces (code.width + 2)))
          ∙ ap (λ l. grid_from code n 0 ++ l ∷ []) (read_line-spaces (code.width + 2)))
