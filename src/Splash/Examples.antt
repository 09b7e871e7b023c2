-- ===== src/Splash/Examples.antt =====
-- userspace/splash.c: the theorems applied to a small surface.
use usbdisplay_stack.Common.{
  ◌*◌, ◌≤◌, ◌<◌, ◌≡◌, ◌⊎◌, true, [], arith, leb, if◌then◌else◌, pos, negsuc,
}
use usbdisplay_stack.Splash.Line.{course, line_loop, start_line, line_fuel}
use usbdisplay_stack.Splash.Line.Ends.{splash_line_ends}
use usbdisplay_stack.Splash.Page.{
  ascii, color_cyan, usbdisplay_splash_bytes, usbdisplay_splash_render,
}
use usbdisplay_stack.Splash.Page.Rendered.{
  IsRenderedOrRefused, usbdisplay_splash_render_lem, usbdisplay_splash_bytes_lem,
}
use usbdisplay_stack.Splash.Surface.{splash_fill_rect, Surface}
use usbdisplay_stack.Splash.Surface.Laws.{splash_fill_rect-Draws, Draws}
use usbdisplay_stack.Splash.Text.{splash_glyphs, splash_find_glyph, splash_text_fit_scale}
use usbdisplay_stack.Splash.Text.Glyphs.{IsFound, blank_glyph, splash_find_glyph-IsFound}
use usbdisplay_stack.Splash.Text.Laws.{splash_text_fit_scale_lem, IsFitting}

abbrev panel : Surface
panel = record { width = 320; height = 240; stride = 320 }

splash_fill_rect-Draws_example :
    Draws panel [] (splash_fill_rect panel 4294967290 0 20 20 color_cyan [])
splash_fill_rect-Draws_example = splash_fill_rect-Draws panel 4294967290 0 20 20 color_cyan []

splash_line_ends_example :
    let c = course (pos 7) (pos 20) (pos 3) (negsuc 4) in
    let (l, complete) =
      line_loop
        (line_fuel c)
        panel
        c
        3
        color_cyan
        (start_line (pos 7) (pos 20) (pos 3) (negsuc 4) []) in
    (complete ≡ true) × (l.x ≡ pos 3) × (l.y ≡ negsuc 4)
splash_line_ends_example =
    splash_line_ends panel (pos 7) (pos 20) (pos 3) (negsuc 4) 3 color_cyan []

splash_text_fit_scale_lem_example :
    IsFitting
      (ascii "VERSION 2.7.1823")
      100
      5
      (splash_text_fit_scale (ascii "VERSION 2.7.1823") 100 5)
splash_text_fit_scale_lem_example =
    splash_text_fit_scale_lem (ascii "VERSION 2.7.1823") 100 5 (omega arith)

splash_find_glyph-IsFound_example :
    (97 ≤ b'q') × (b'q' ≤ 122) × (splash_find_glyph b'q' ≡ splash_find_glyph b'Q')
    ⊎ ((b'q' < 97) ⊎ (122 < b'q')) × IsFound splash_glyphs b'q' blank_glyph (splash_find_glyph b'q')
splash_find_glyph-IsFound_example = splash_find_glyph-IsFound b'q'

usbdisplay_splash_bytes_lem_example :
    usbdisplay_splash_bytes 4294967295 65536 16384
    ≡ (if leb (65536 * 4 * 16384) 4294967295 then 65536 * 4 * 16384 else 0)
usbdisplay_splash_bytes_lem_example = usbdisplay_splash_bytes_lem 4294967295 65536 16384

usbdisplay_splash_render_lem_example :
    IsRenderedOrRefused true 320 240 1280 []
      (usbdisplay_splash_render (ascii "development") true 320 240 1280 [])
usbdisplay_splash_render_lem_example =
    usbdisplay_splash_render_lem (ascii "development") true 320 240 1280 [] (omega arith)
