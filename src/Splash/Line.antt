-- ===== src/Splash/Line.antt =====
-- userspace/splash.c: lines and circles (splash_line, splash_circle). Their coordinates are `int`s of
-- the page, below a thousand, so they do not overflow and are integers here.
pub mod Laws
pub mod Ends
use usbdisplay_stack.Common.{
  ℕ, zero, suc, ◌+◌, ◌/◌, Bool, true, false, ◌&&◌, List, if◌then◌else◌, ℤ, pos, negsuc, above,
  below, ◌+ℤ◌, ◌-ℤ◌, ◌*ℤ◌, ltb_ℤ, leb_ℤ, eqb_ℤ, u32_ℤ,
}
use usbdisplay_stack.Splash.Surface.{splash_fill_rect, Surface, Pixel}

-- The variables of splash_line that its loop changes.
pub record Line : Type 0 where
  pub x : ℤ
  pub y : ℤ
  pub error : ℤ
  pub pixels : List Pixel

-- What its loop does not change: the end of the line, the deltas and the steps.
pub record Course : Type 0 where
  pub x1 : ℤ
  pub y1 : ℤ
  pub delta_x : ℤ
  pub delta_y : ℤ
  pub step_x : ℤ
  pub step_y : ℤ

unfoldable pub course : ℤ → ℤ → ℤ → ℤ → Course
course x0 y0 x1 y1 = record {
  x1 = x1;
  y1 = y1;
  delta_x = if ltb_ℤ x0 x1 then x1 -ℤ x0 else x0 -ℤ x1;
  delta_y = if ltb_ℤ y0 y1 then y0 -ℤ y1 else y1 -ℤ y0;
  step_x = if ltb_ℤ x0 x1 then pos 1 else negsuc 0;
  step_y = if ltb_ℤ y0 y1 then pos 1 else negsuc 0;
}

-- The square of the line's thickness around its point.
unfoldable pub draw_point : Surface → ℕ → ℕ → Line → Line
draw_point s thickness color l =
    let x = u32_ℤ (l.x -ℤ pos (thickness / 2)) in
    let y = u32_ℤ (l.y -ℤ pos (thickness / 2)) in
    record l { pixels = splash_fill_rect s x y thickness thickness color l.pixels }

-- The step to the next point: one column, one row or both.
unfoldable pub line_step : Course → Line → Line
line_step c l =
    let doubled = pos 2 *ℤ l.error in
    let across =
      if leb_ℤ c.delta_y doubled
      then record l { error = l.error +ℤ c.delta_y; x = l.x +ℤ c.step_x }
      else l in
    if leb_ℤ doubled c.delta_x
    then record across { error = across.error +ℤ c.delta_x; y = across.y +ℤ c.step_y }
    else across

-- The loop, with whether it is complete: on fuel, for which the sum of the deltas and one is enough.
unfoldable pub line_loop : ℕ → Surface → Course → ℕ → ℕ → Line → Line × Bool
unfolding draw_point line_step
line_loop zero s c thickness color l = (l, false)
line_loop (suc fuel) s c thickness color l =
    let drawn = draw_point s thickness color l in
    let rest = line_loop fuel s c thickness color (line_step c drawn) in
    if eqb_ℤ l.x c.x1 && eqb_ℤ l.y c.y1 then (drawn, true) else rest

unfoldable pub start_line : ℤ → ℤ → ℤ → ℤ → List Pixel → Line
unfolding course
start_line x0 y0 x1 y1 p =
    let c = course x0 y0 x1 y1 in
    record { x = x0; y = y0; error = c.delta_x +ℤ c.delta_y; pixels = p }

abbrev pub line_fuel : Course → ℕ
line_fuel c = suc (above c.delta_x + below c.delta_y)

unfoldable pub splash_line : Surface → ℤ → ℤ → ℤ → ℤ → ℕ → ℕ → List Pixel → List Pixel
unfolding course start_line line_loop
splash_line s x0 y0 x1 y1 thickness color p =
    let c = course x0 y0 x1 y1 in
    let (l, complete) = line_loop (line_fuel c) s c thickness color (start_line x0 y0 x1 y1 p) in
    l.pixels

-- The ring between two circles: the outer loop over the rows, the inner one over the columns.
pub record Ring : Type 0 where
  pub center_x : ℤ
  pub center_y : ℤ
  pub outer : ℤ
  pub inner : ℤ

unfoldable pub in_ring : Ring → ℤ → ℤ → Bool
in_ring r x y =
    let delta_x = x -ℤ r.center_x in
    let delta_y = y -ℤ r.center_y in
    let distance = delta_x *ℤ delta_x +ℤ delta_y *ℤ delta_y in
    leb_ℤ distance r.outer && leb_ℤ r.inner distance

unfoldable pub ring_columns : ℕ → Surface → Ring → ℤ → ℤ → ℕ → List Pixel → List Pixel
unfolding in_ring
ring_columns zero s r x y color p = p
ring_columns (suc columns) s r x y color p =
    ring_columns columns s r (x +ℤ pos 1) y color
      (if in_ring r x y then splash_fill_rect s (u32_ℤ x) (u32_ℤ y) 1 1 color p else p)

unfoldable pub ring_rows : ℕ → ℕ → Surface → Ring → ℤ → ℤ → ℕ → List Pixel → List Pixel
unfolding ring_columns
ring_rows zero columns s r x y color p = p
ring_rows (suc rows) columns s r x y color p =
    ring_rows rows columns s r x (y +ℤ pos 1) color (ring_columns columns s r x y color p)

-- How often `for (x = first; x <= last; ++x)` runs.
abbrev pub steps_to : ℤ → ℤ → ℕ
steps_to first last = above (last +ℤ pos 1 -ℤ first)

unfoldable pub splash_circle : Surface → ℤ → ℤ → ℤ → ℤ → ℕ → List Pixel → List Pixel
unfolding ring_rows
splash_circle s center_x center_y radius thickness color p =
    let r : Ring = record {
      center_x = center_x;
      center_y = center_y;
      outer = radius *ℤ radius;
      inner = (radius -ℤ thickness) *ℤ (radius -ℤ thickness);
    } in
    let x = center_x -ℤ radius in
    let y = center_y -ℤ radius in
    ring_rows (steps_to y (center_y +ℤ radius)) (steps_to x (center_x +ℤ radius)) s r x y color p
