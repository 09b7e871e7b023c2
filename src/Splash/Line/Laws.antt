-- ===== src/Splash/Line/Laws.antt =====
-- userspace/splash.c: lines and circles stay on the surface.
use mathlib.Core.Path.{subst}
use usbdisplay_stack.Common.{
  ℕ, zero, suc, ◌/◌, ◌≡◌, Bool, true, false, ◌&&◌, List, arith, if◌then◌else◌, ℤ, pos, ◌+ℤ◌, ◌-ℤ◌,
  eqb_ℤ, u32_ℤ,
}
use usbdisplay_stack.Splash.Line.{
  course, draw_point, line_step, line_loop, start_line, line_fuel, splash_line, in_ring,
  ring_columns, ring_rows, splash_circle, Line, Course, Ring,
}
use usbdisplay_stack.Splash.Surface.{splash_fill_rect, Surface, Pixel}
use usbdisplay_stack.Splash.Surface.Laws.{Draws-nothing, Draws-trans, splash_fill_rect-Draws, Draws}

draw_point-Draws :
    (s : Surface) (thickness color : ℕ) (l : Line)
    → Draws s l.pixels (draw_point s thickness color l).pixels
unfolding draw_point
draw_point-Draws s thickness color l =
    splash_fill_rect-Draws s (u32_ℤ (l.x -ℤ pos (thickness / 2)))
      (u32_ℤ (l.y -ℤ pos (thickness / 2))) thickness thickness color l.pixels

line_step_pixels : (c : Course) (l : Line) → (line_step c l).pixels ≡ l.pixels
unfolding line_step
line_step_pixels c l = ground arith

Draws-if :
    {s : Surface} {p : List Pixel} (test : Bool) (x y : Line × Bool)
    → Draws s p x.0.pixels
    → Draws s p y.0.pixels
    → Draws s p (if test then x else y).0.pixels
Draws-if true x y d e = d
Draws-if false x y d e = e

line_loop-Draws :
    (fuel : ℕ) (s : Surface) (c : Course) (thickness color : ℕ) (l : Line)
    → Draws s l.pixels (line_loop fuel s c thickness color l).0.pixels
unfolding line_loop
line_loop-Draws zero s c thickness color l = Draws-nothing s l.pixels
line_loop-Draws (suc fuel) s c thickness color l =
    let drawn = draw_point s thickness color l in
    let point = draw_point-Draws s thickness color l in
    let rest = Draws-trans point (
      subst (λ p. Draws s p (line_loop fuel s c thickness color (line_step c drawn)).0.pixels)
        (line_step_pixels c drawn)
        (line_loop-Draws fuel s c thickness color (line_step c drawn))) in
    Draws-if (eqb_ℤ l.x c.x1 && eqb_ℤ l.y c.y1) (drawn, true) _ point rest

pub splash_line-Draws :
    (s : Surface) (x0 y0 x1 y1 : ℤ) (thickness color : ℕ) (p : List Pixel)
    → Draws s p (splash_line s x0 y0 x1 y1 thickness color p)
unfolding splash_line start_line
splash_line-Draws s x0 y0 x1 y1 thickness color p =
    let c = course x0 y0 x1 y1 in
    line_loop-Draws (line_fuel c) s c thickness color (start_line x0 y0 x1 y1 p)

ring_columns-Draws :
    (columns : ℕ) (s : Surface) (r : Ring) (x y : ℤ) (color : ℕ) (p : List Pixel)
    → Draws s p (ring_columns columns s r x y color p)
unfolding ring_columns
ring_columns-Draws zero s r x y color p = Draws-nothing s p
ring_columns-Draws (suc columns) s r x y color p =
    Draws-trans (go (in_ring r x y)) (ring_columns-Draws columns s r (x +ℤ pos 1) y color _)
  where
    go :
        (inside : Bool)
        → Draws s p (if inside then splash_fill_rect s (u32_ℤ x) (u32_ℤ y) 1 1 color p else p)
    go true = splash_fill_rect-Draws s (u32_ℤ x) (u32_ℤ y) 1 1 color p
    go false = Draws-nothing s p

ring_rows-Draws :
    (rows columns : ℕ) (s : Surface) (r : Ring) (x y : ℤ) (color : ℕ) (p : List Pixel)
    → Draws s p (ring_rows rows columns s r x y color p)
unfolding ring_rows
ring_rows-Draws zero columns s r x y color p = Draws-nothing s p
ring_rows-Draws (suc rows) columns s r x y color p =
    Draws-trans (ring_columns-Draws columns s r x y color p)
      (ring_rows-Draws rows columns s r x (y +ℤ pos 1) color _)

pub splash_circle-Draws :
    (s : Surface) (center_x center_y radius thickness : ℤ) (color : ℕ) (p : List Pixel)
    → Draws s p (splash_circle s center_x center_y radius thickness color p)
unfolding splash_circle
splash_circle-Draws s center_x center_y radius thickness color p = search ring_rows-Draws
