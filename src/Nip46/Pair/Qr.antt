-- ===== src/Nip46/Pair/Qr.antt =====
-- src/nip46/pair.rs: `render_qr`. The encoder is a parameter: it gives the side of a code and which of
-- its modules are dark.
pub mod Grid
use narwal_publisher.Prelude.{
  ℕ, zero, suc, ◌+◌, ◌/◌, [], ◌∷◌, ◌++◌, Bool, true, false, ◌&&◌, Text, replicate, ltb,
}

pub record QrCode : Type 0 where
  pub width : ℕ
  pub dark : ℕ → ℕ → Bool

-- the UTF-8 bytes of a space, ▀, ▄ and █, for two modules one above the other
unfoldable pub glyph : Bool → Bool → Text
glyph true true = 226 ∷ 150 ∷ 136 ∷ []
glyph true false = 226 ∷ 150 ∷ 128 ∷ []
glyph false true = 226 ∷ 150 ∷ 132 ∷ []
glyph false false = 32 ∷ []

-- the lower module, which the last row may not have
abbrev pub bottom : QrCode → ℕ → ℕ → Bool
bottom code x y = ltb (y + 1) code.width && code.dark x (y + 1)

-- `for x in 0..w`, with `n` columns left
unfoldable pub row_from : QrCode → ℕ → ℕ → ℕ → Text
unfolding glyph
row_from code zero x y = []
row_from code (suc n) x y = glyph (code.dark x y) (bottom code x y) ++ row_from code n (suc x) y

-- a row of the terminal between two spaces, without its line break
unfoldable pub row : QrCode → ℕ → Text
unfolding row_from
row code y = 32 ∷ (row_from code code.width 0 y ++ 32 ∷ [])

-- `for y in (0..w).step_by(2)`, with `n` rows left
unfoldable pub rows_from : QrCode → ℕ → ℕ → Text
unfolding row
rows_from code zero y = []
rows_from code (suc n) y = row code y ++ 10 ∷ rows_from code n (y + 2)

-- a row of spaces
unfoldable pub quiet_row : QrCode → Text
quiet_row code = replicate (code.width + 2) 32

unfoldable pub render : QrCode → Text
unfolding rows_from quiet_row
render code =
    quiet_row code ++ 10 ∷ (rows_from code ((code.width + 1) / 2) 0 ++ (quiet_row code ++ 10 ∷ []))
