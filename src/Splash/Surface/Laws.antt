-- ===== src/Splash/Surface/Laws.antt =====
-- userspace/splash.c: what is drawn stays on the surface.

use mathlib.Core.List.{append_assoc}
use usbdisplay_stack.Common.{
  ℕ, zero, suc, ◌+◌, ◌-◌, ◌*◌, ◌≤◌, ◌<◌, ◌≡◌, refl, sym, ap, ◌∙◌, List, [], ◌∷◌, ◌++◌, arith, u32,
  sub32,
}
use usbdisplay_stack.Splash.Surface.{
  splash_scale_x, splash_scale_y, fill_columns, fill_rows, splash_fill, far_edge, splash_fill_rect,
  splash_outline_rect, Surface, Pixel,
}

-- The index of a visible pixel.
abbrev pub IsVisible : Surface → Pixel → Type 0
IsVisible s p =
    (row : ℕ) × (column : ℕ) × (row < s.height)
    × (column < s.width)
    × (p.index ≡ row * s.stride + column)

abbrev pub AreVisible : Surface → List Pixel → Type 0
AreVisible s [] = Unit {0}
AreVisible s (p ∷ ps) = IsVisible s p × AreVisible s ps

-- Drawing adds writes to visible pixels, and keeps what was written.
pub record Draws (s : Surface) (before after : List Pixel) : Type 0 where
  pub new : List Pixel
  pub added : after ≡ new ++ before
  pub visible : AreVisible s new

AreVisible-append :
    (s : Surface) (ps qs : List Pixel) → AreVisible s ps → AreVisible s qs → AreVisible s (ps ++ qs)
AreVisible-append s [] qs v w = w
AreVisible-append s (p ∷ ps) qs (v, vs) w = (v, AreVisible-append s ps qs vs w)

pub Draws-nothing : (s : Surface) (p : List Pixel) → Draws s p p
Draws-nothing s p = record { new = []; added = refl; visible = tt }

pub Draws-trans : {s : Surface} {p q r : List Pixel} → Draws s p q → Draws s q r → Draws s p r
Draws-trans {s} {p} {q} {r} a b = record {
  new = b.new ++ a.new;
  added = b.added ∙ ap (λ x. b.new ++ x) a.added ∙ sym (append_assoc b.new a.new p);
  visible = AreVisible-append s b.new a.new b.visible a.visible;
}

pub fill_columns-Draws :
    (columns : ℕ) (s : Surface) (row column color : ℕ) (p : List Pixel)
    → row < s.height
    → columns ≤ s.width - column
    → Draws s p (fill_columns columns s row column color p)
unfolding fill_columns
fill_columns-Draws zero s row column color p h k = Draws-nothing s p
fill_columns-Draws (suc columns) s row column color p h k =
    let pixel : Pixel = record { index = row * s.stride + column; color = color } in
    let one : Draws s p (pixel ∷ p) = record {
      new = pixel ∷ [];
      added = refl;
      visible = ((row, column, h, omega arith, refl), tt);
    } in
    Draws-trans one
      (fill_columns-Draws columns s row (suc column) color (pixel ∷ p) h (omega arith))

pub fill_rows-Draws :
    (rows columns : ℕ) (s : Surface) (row column color : ℕ) (p : List Pixel)
    → rows ≤ s.height - row
    → columns ≤ s.width - column
    → Draws s p (fill_rows rows columns s row column color p)
unfolding fill_rows
fill_rows-Draws zero columns s row column color p h k = Draws-nothing s p
fill_rows-Draws (suc rows) columns s row column color p h k =
    Draws-trans (fill_columns-Draws columns s row column color p (omega arith) k) (
      fill_rows-Draws rows columns s (suc row) column color
        (fill_columns columns s row column color p) (omega arith) k)

pub splash_fill-Draws :
    (s : Surface) (color : ℕ) (p : List Pixel) → Draws s p (splash_fill s color p)
unfolding splash_fill
splash_fill-Draws s color p =
    fill_rows-Draws s.height s.width s 0 0 color p (omega arith) (omega arith)

far_edge_le : (size near far limit : ℕ) → far_edge size near far limit ≤ limit
unfolding far_edge
far_edge_le size near far limit = ground arith

-- Wherever a rectangle lies, and however its sums wrap, its pixels are visible ones.
pub splash_fill_rect-Draws :
    (s : Surface) (x y width height color : ℕ) (p : List Pixel)
    → Draws s p (splash_fill_rect s x y width height color p)
unfolding splash_fill_rect
splash_fill_rect-Draws s x y width height color p =
    let left = splash_scale_x s x in
    let top = splash_scale_y s y in
    let right = far_edge width left (splash_scale_x s (u32 (x + width))) s.width in
    let bottom = far_edge height top (splash_scale_y s (u32 (y + height))) s.height in
    let low = far_edge_le height top (splash_scale_y s (u32 (y + height))) s.height in
    let narrow = far_edge_le width left (splash_scale_x s (u32 (x + width))) s.width in
    fill_rows-Draws (bottom - top) (right - left) s top left color p (omega (arith, low))
      (omega (arith, narrow))

pub splash_outline_rect-Draws :
    (s : Surface) (x y width height thickness color : ℕ) (p : List Pixel)
    → Draws s p (splash_outline_rect s x y width height thickness color p)
unfolding splash_outline_rect
splash_outline_rect-Draws s x y width height thickness color p =
    Draws-trans (splash_fill_rect-Draws s x y width thickness color p) (
      Draws-trans
        (splash_fill_rect-Draws s x (sub32 (u32 (y + height)) thickness) width thickness color _)
        (Draws-trans (splash_fill_rect-Draws s x y thickness height color _) (
          splash_fill_rect-Draws s (sub32 (u32 (x + width)) thickness) y thickness height color _)))
