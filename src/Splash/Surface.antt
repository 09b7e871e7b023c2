-- ===== src/Splash/Surface.antt =====
-- userspace/splash.c: the surface that is drawn on, and its rectangles (splash_fill, splash_fill_rect,
-- splash_outline_rect). The pixels are kept as the list of the writes, the last one first.
pub mod Laws
pub mod Filled
use usbdisplay_stack.Common.{
  ℕ, zero, suc, ◌+◌, ◌-◌, ◌*◌, ◌/◌, not, ◌&&◌, List, ◌∷◌, ltb, leb, ◌==◌, if◌then◌else◌, u32, u64,
  sub32,
}

abbrev pub splash_logical_width : ℕ
splash_logical_width = 960

abbrev pub splash_logical_height : ℕ
splash_logical_height = 540

-- struct splash_surface, with the stride in pixels.
pub record Surface : Type 0 where
  pub width : ℕ
  pub height : ℕ
  pub stride : ℕ

-- A write to surface->pixels: its index and the colour.
pub record Pixel : Type 0 where
  pub index : ℕ
  pub color : ℕ

unfoldable pub splash_scale_x : Surface → ℕ → ℕ
splash_scale_x s value = u32 (u64 (value * s.width) / splash_logical_width)

unfoldable pub splash_scale_y : Surface → ℕ → ℕ
splash_scale_y s value = u32 (u64 (value * s.height) / splash_logical_height)

-- The inner loop over so many columns from `column`, and the outer loop over so many rows from `row`.
unfoldable pub fill_columns : ℕ → Surface → ℕ → ℕ → ℕ → List Pixel → List Pixel
fill_columns zero s row column color p = p
fill_columns (suc columns) s row column color p =
    fill_columns columns s row (suc column) color
      (record { index = row * s.stride + column; color = color } ∷ p)

unfoldable pub fill_rows : ℕ → ℕ → Surface → ℕ → ℕ → ℕ → List Pixel → List Pixel
unfolding fill_columns
fill_rows zero columns s row column color p = p
fill_rows (suc rows) columns s row column color p =
    fill_rows rows columns s (suc row) column color (fill_columns columns s row column color p)

unfoldable pub splash_fill : Surface → ℕ → List Pixel → List Pixel
unfolding fill_rows
splash_fill s color p = fill_rows s.height s.width s 0 0 color p

-- The edges `right` and `bottom`: at least one pixel of what is on the surface, and none past it.
unfoldable pub far_edge : ℕ → ℕ → ℕ → ℕ → ℕ
far_edge size near far limit =
    let kept = if not (size == 0) && leb far near && ltb near limit then u32 (near + 1) else far in
    if ltb limit kept then limit else kept

unfoldable pub splash_fill_rect : Surface → ℕ → ℕ → ℕ → ℕ → ℕ → List Pixel → List Pixel
unfolding splash_scale_x splash_scale_y far_edge fill_rows
splash_fill_rect s x y width height color p =
    let left = splash_scale_x s x in
    let top = splash_scale_y s y in
    let right = far_edge width left (splash_scale_x s (u32 (x + width))) s.width in
    let bottom = far_edge height top (splash_scale_y s (u32 (y + height))) s.height in
    fill_rows (bottom - top) (right - left) s top left color p

unfoldable pub splash_outline_rect : Surface → ℕ → ℕ → ℕ → ℕ → ℕ → ℕ → List Pixel → List Pixel
unfolding splash_fill_rect
splash_outline_rect s x y width height thickness color p =
    let top = splash_fill_rect s x y width thickness color p in
    let bottom =
      splash_fill_rect s x (sub32 (u32 (y + height)) thickness) width thickness color top in
    let left = splash_fill_rect s x y thickness height color bottom in
    splash_fill_rect s (sub32 (u32 (x + width)) thickness) y thickness height color left
