-- ===== src/Splash/Page/Laws.antt =====
-- userspace/splash.c: the page is drawn on its surface only, and all of it is written.
use usbdisplay_stack.Common.{ℕ, List, ℤ}
use usbdisplay_stack.Splash.Line.{splash_line, splash_circle}
use usbdisplay_stack.Splash.Line.Laws.{splash_line-Draws, splash_circle-Draws}
use usbdisplay_stack.Splash.Page.{
  color_background, splash_check, splash_terminal_icon, splash_driver_icon, splash_display_icon,
  draw_heading, draw_icons, draw_status, draw_foot,
}
use usbdisplay_stack.Splash.Surface.{
  splash_fill, splash_fill_rect, splash_outline_rect, Surface, Pixel,
}
use usbdisplay_stack.Splash.Surface.Laws.{
  Draws-nothing, Draws-trans, splash_fill_rect-Draws, splash_outline_rect-Draws, Draws,
}
use usbdisplay_stack.Splash.Text.{splash_text, splash_centered_text}
use usbdisplay_stack.Splash.Text.Laws.{splash_text-Draws, splash_centered_text-Draws}

-- Each part of the page adds to what was drawn from `p` on.
module _ {s : Surface} {p q : List Pixel} where
  rect_after :
      (x y width height color : ℕ)
      → Draws s p q
      → Draws s p (splash_fill_rect s x y width height color q)
  rect_after x y width height color d =
      Draws-trans d (splash_fill_rect-Draws s x y width height color q)

  outline_after :
      (x y width height thickness color : ℕ)
      → Draws s p q
      → Draws s p (splash_outline_rect s x y width height thickness color q)
  outline_after x y width height thickness color d =
      Draws-trans d (splash_outline_rect-Draws s x y width height thickness color q)

  line_after :
      (x0 y0 x1 y1 : ℤ) (thickness color : ℕ)
      → Draws s p q
      → Draws s p (splash_line s x0 y0 x1 y1 thickness color q)
  line_after x0 y0 x1 y1 thickness color d =
      Draws-trans d (splash_line-Draws s x0 y0 x1 y1 thickness color q)

  circle_after :
      (x y radius thickness : ℤ) (color : ℕ)
      → Draws s p q
      → Draws s p (splash_circle s x y radius thickness color q)
  circle_after x y radius thickness color d =
      Draws-trans d (splash_circle-Draws s x y radius thickness color q)

  text_after :
      (text : List ℕ) (x y scale color : ℕ)
      → Draws s p q
      → Draws s p (splash_text s text x y scale color q)
  text_after text x y scale color d = Draws-trans d (splash_text-Draws s text x y scale color q)

  centered_after :
      (text : List ℕ) (y scale color : ℕ)
      → Draws s p q
      → Draws s p (splash_centered_text s text y scale color q)
  centered_after text y scale color d =
      Draws-trans d (splash_centered_text-Draws s text y scale color q)

ruleset drawing =
    (rect_after, outline_after, line_after, circle_after, text_after, centered_after, Draws-nothing)

splash_check-Draws :
    (s : Surface) (x y radius : ℤ) (p : List Pixel) → Draws s p (splash_check s x y radius p)
unfolding splash_check
splash_check-Draws s x y radius p = search drawing depth 14

splash_terminal_icon-Draws :
    (s : Surface) (x y : ℤ) (p : List Pixel) → Draws s p (splash_terminal_icon s x y p)
unfolding splash_terminal_icon
splash_terminal_icon-Draws s x y p = search drawing depth 14

splash_driver_icon-Draws :
    (s : Surface) (x y : ℤ) (p : List Pixel) → Draws s p (splash_driver_icon s x y p)
unfolding splash_driver_icon
splash_driver_icon-Draws s x y p = search drawing depth 14

splash_display_icon-Draws :
    (s : Surface) (x y : ℤ) (p : List Pixel) → Draws s p (splash_display_icon s x y p)
unfolding splash_display_icon
splash_display_icon-Draws s x y p = search drawing depth 14

module _ {s : Surface} {p q : List Pixel} where
  check_after : (x y radius : ℤ) → Draws s p q → Draws s p (splash_check s x y radius q)
  check_after x y radius d = Draws-trans d (splash_check-Draws s x y radius q)

  terminal_after : (x y : ℤ) → Draws s p q → Draws s p (splash_terminal_icon s x y q)
  terminal_after x y d = Draws-trans d (splash_terminal_icon-Draws s x y q)

  driver_after : (x y : ℤ) → Draws s p q → Draws s p (splash_driver_icon s x y q)
  driver_after x y d = Draws-trans d (splash_driver_icon-Draws s x y q)

  display_after : (x y : ℤ) → Draws s p q → Draws s p (splash_display_icon s x y q)
  display_after x y d = Draws-trans d (splash_display_icon-Draws s x y q)

ruleset page = (drawing, check_after, terminal_after, driver_after, display_after)

-- Behind the filling of the whole surface.
pub draw_heading-Draws :
    (s : Surface) (p : List Pixel) → Draws s (splash_fill s color_background p) (draw_heading s p)
unfolding draw_heading
draw_heading-Draws s p = search page depth 14

pub draw_icons-Draws : (s : Surface) (p : List Pixel) → Draws s p (draw_icons s p)
unfolding draw_icons
draw_icons-Draws s p = search page depth 14

pub draw_status-Draws : (s : Surface) (p : List Pixel) → Draws s p (draw_status s p)
unfolding draw_status
draw_status-Draws s p = search page depth 14

pub draw_foot-Draws :
    (version : List ℕ) (s : Surface) (p : List Pixel) → Draws s p (draw_foot version s p)
unfolding draw_foot
draw_foot-Draws version s p = search page depth 14
