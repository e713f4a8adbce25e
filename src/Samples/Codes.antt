-- ===== src/Samples/Codes.antt =====
-- Samples for the QR code of src/nip46/pair.rs.
use narwal_publisher.Prelude.{◌≡◌, refl, [], ◌∷◌, ◌++◌, map, ◌==◌}
use narwal_publisher.Nip46.Pair.Qr.{QrCode, row, row_from, glyph, render}
use narwal_publisher.Nip46.Pair.Qr.Grid.{read_line, lines_of, grid_from, blank, read_line-render}

-- a code of side 3 with a dark diagonal
abbrev diagonal : QrCode
diagonal = record { width = 3; dark = λ x y. x == y }

read_line-render_example :
    map read_line (lines_of (render diagonal))
    ≡ blank diagonal ∷ (grid_from diagonal 2 0 ++ blank diagonal ∷ [])
read_line-render_example = read_line-render diagonal

-- a space, the upper half, the lower half, a space, a space
first_row : row diagonal 0 ≡ 32 ∷ 226 ∷ 150 ∷ 128 ∷ 226 ∷ 150 ∷ 132 ∷ 32 ∷ 32 ∷ []
unfolding row row_from glyph
first_row = refl
