-- ===== src/Splash/Text.antt =====
-- userspace/splash.c: the letters of the page (splash_glyphs, splash_find_glyph, splash_text_width,
-- splash_text, splash_centered_text, splash_text_fit_scale). A text is the list of its bytes.
pub mod Laws
pub mod Glyphs
use usbdisplay_stack.Common.{
  ℕ, zero, suc, ◌+◌, ◌-◌, ◌*◌, ◌/◌, ◌%◌, ◌^◌, ◌&&◌, List, [], ◌∷◌, ltb, leb, ◌==◌, if◌then◌else◌,
  u32, u64, sub64, length,
}
use usbdisplay_stack.Splash.Surface.{splash_logical_width, splash_fill_rect, Surface, Pixel}

-- struct splash_glyph
pub record Glyph : Type 0 where
  pub character : ℕ
  pub rows : List ℕ

abbrev glyph : ℕ → ℕ → ℕ → ℕ → ℕ → ℕ → ℕ → ℕ → Glyph
glyph c r0 r1 r2 r3 r4 r5 r6 = record {
  character = c;
  rows = r0 ∷ r1 ∷ r2 ∷ r3 ∷ r4 ∷ r5 ∷ r6 ∷ [];
}

unfoldable pub splash_glyphs : List Glyph
splash_glyphs =
    glyph b' ' 0 0 0 0 0 0 0
    ∷ glyph b'-' 0 0 0 31 0 0 0
    ∷ glyph b'.' 0 0 0 0 0 12 12
    ∷ glyph b'/' 1 2 4 8 16 0 0
    ∷ glyph b':' 0 12 12 0 12 12 0
    ∷ glyph b'0' 14 17 19 21 25 17 14
    ∷ glyph b'1' 4 12 4 4 4 4 14
    ∷ glyph b'2' 14 17 1 2 4 8 31
    ∷ glyph b'3' 30 1 1 14 1 1 30
    ∷ glyph b'4' 2 6 10 18 31 2 2
    ∷ glyph b'5' 31 16 16 30 1 1 30
    ∷ glyph b'6' 14 16 16 30 17 17 14
    ∷ glyph b'7' 31 1 2 4 8 8 8
    ∷ glyph b'8' 14 17 17 14 17 17 14
    ∷ glyph b'9' 14 17 17 15 1 1 14
    ∷ glyph b'A' 14 17 17 31 17 17 17
    ∷ glyph b'B' 30 17 17 30 17 17 30
    ∷ glyph b'C' 14 17 16 16 16 17 14
    ∷ glyph b'D' 30 17 17 17 17 17 30
    ∷ glyph b'E' 31 16 16 30 16 16 31
    ∷ glyph b'F' 31 16 16 30 16 16 16
    ∷ glyph b'G' 14 17 16 23 17 17 15
    ∷ glyph b'H' 17 17 17 31 17 17 17
    ∷ glyph b'I' 14 4 4 4 4 4 14
    ∷ glyph b'J' 7 2 2 2 18 18 12
    ∷ glyph b'K' 17 18 20 24 20 18 17
    ∷ glyph b'L' 16 16 16 16 16 16 31
    ∷ glyph b'M' 17 27 21 21 17 17 17
    ∷ glyph b'N' 17 25 21 19 17 17 17
    ∷ glyph b'O' 14 17 17 17 17 17 14
    ∷ glyph b'P' 30 17 17 30 16 16 16
    ∷ glyph b'Q' 14 17 17 17 21 18 13
    ∷ glyph b'R' 30 17 17 30 20 18 17
    ∷ glyph b'S' 15 16 16 14 1 1 30
    ∷ glyph b'T' 31 4 4 4 4 4 4
    ∷ glyph b'U' 17 17 17 17 17 17 14
    ∷ glyph b'V' 17 17 17 17 17 10 4
    ∷ glyph b'W' 17 17 17 21 21 21 10
    ∷ glyph b'X' 17 17 10 4 10 17 17
    ∷ glyph b'Y' 17 17 10 4 4 4 4
    ∷ glyph b'Z' 31 1 2 4 8 16 31
    ∷ []

-- The loop over the table: the last glyph of the character, or `result` if there is none.
unfoldable pub find_in : List Glyph → ℕ → Glyph → Glyph
find_in [] character result = result
find_in (g ∷ glyphs) character result =
    find_in glyphs character (if g.character == character then g else result)

unfoldable pub upper : ℕ → ℕ
upper c = if leb b'a' c && leb c b'z' then c - 32 else c

unfoldable pub splash_find_glyph : ℕ → Glyph
unfolding find_in upper splash_glyphs
splash_find_glyph character = find_in splash_glyphs (upper character) (glyph b' ' 0 0 0 0 0 0 0)

-- (unsigned int)((length * 6U - 1U) * scale), with a size_t of 64 bits
unfoldable pub splash_text_width : List ℕ → ℕ → ℕ
splash_text_width text scale =
    let n = length text in if ltb 0 n then u32 (u64 (sub64 (u64 (n * 6)) 1 * scale)) else 0

-- The two inner loops over the bits of a glyph: the columns of one row, and the rows.
unfoldable pub glyph_row : ℕ → Surface → ℕ → ℕ → ℕ → ℕ → ℕ → List Pixel → List Pixel
glyph_row zero s bits x y scale color p = p
glyph_row (suc left) s bits x y scale color p =
    let column = 4 - left in
    let drawn =
      if bits / 2 ^ left % 2 == 0
      then p
      else splash_fill_rect s (u32 (x + u32 (column * scale))) y scale scale color p in
    glyph_row left s bits x y scale color drawn

unfoldable pub glyph_rows : ℕ → List ℕ → Surface → ℕ → ℕ → ℕ → ℕ → List Pixel → List Pixel
unfolding glyph_row
glyph_rows row [] s x y scale color p = p
glyph_rows row (bits ∷ rows) s x y scale color p =
    glyph_rows (suc row) rows s x y scale color
      (glyph_row 5 s bits x (u32 (y + u32 (row * scale))) scale color p)

unfoldable pub splash_text : Surface → List ℕ → ℕ → ℕ → ℕ → ℕ → List Pixel → List Pixel
unfolding glyph_rows splash_find_glyph
splash_text s [] x y scale color p = p
splash_text s (character ∷ text) x y scale color p =
    splash_text s text (u32 (x + u32 (6 * scale))) y scale color
      (glyph_rows 0 (splash_find_glyph character).rows s x y scale color p)

unfoldable pub splash_centered_text : Surface → List ℕ → ℕ → ℕ → ℕ → List Pixel → List Pixel
unfolding splash_text_width splash_text
splash_centered_text s text y scale color p =
    let width = splash_text_width text scale in
    let x = if ltb width splash_logical_width then (splash_logical_width - width) / 2 else 0 in
    splash_text s text x y scale color p

-- The loop that counts the scale down.
unfoldable pub splash_text_fit_scale : List ℕ → ℕ → ℕ → ℕ
unfolding splash_text_width
splash_text_fit_scale text maximum_width zero = zero
splash_text_fit_scale text maximum_width (suc scale) =
    let rest = splash_text_fit_scale text maximum_width scale in
    if ltb 0 scale && ltb maximum_width (splash_text_width text (suc scale))
    then rest
    else suc scale
