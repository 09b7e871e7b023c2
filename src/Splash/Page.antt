-- ===== src/Splash/Page.antt =====
-- userspace/splash.c: the page and its size (splash_check, the icons, usbdisplay_splash_bytes and
-- usbdisplay_splash_render).
pub mod Laws
pub mod Rendered
use Prim.Native.Char.{code}
use Prim.Native.String.{String}
use usbdisplay_stack.Common.{
  ℕ, suc, ◌+◌, ◌*◌, ◌/◌, ◌%◌, Bool, not, ◌&&◌, ◌||◌, List, [], ◌∷◌, ◌++◌, ltb, leb, ◌==◌,
  if◌then◌else◌, u32, sub32, Status, success, failure, ℤ, pos, ◌+ℤ◌, ◌-ℤ◌, ◌/ℤ◌, u32_ℤ, einval,
}
use usbdisplay_stack.Daemon.Loop.{short}
use usbdisplay_stack.Splash.Line.{splash_line, splash_circle}
use usbdisplay_stack.Splash.Surface.{
  splash_fill, splash_fill_rect, splash_outline_rect, Surface, Pixel,
}
use usbdisplay_stack.Splash.Text.{
  upper, splash_text_width, splash_text, splash_centered_text, splash_text_fit_scale,
}

-- The bytes of an ASCII text.
abbrev pub ascii : String → List ℕ
ascii String.[] = []
ascii (String.◌∷◌ c text) = code c ∷ ascii text

abbrev pub color_background : ℕ
color_background = 0x000b1115

abbrev pub color_panel : ℕ
color_panel = 0x00121c22

abbrev pub color_line : ℕ
color_line = 0x00213b47

abbrev pub color_cyan : ℕ
color_cyan = 0x003ac7f2

abbrev pub color_green : ℕ
color_green = 0x006bd146

abbrev pub color_white : ℕ
color_white = 0x00f4f7f8

abbrev pub color_muted : ℕ
color_muted = 0x0087a1ae

unfoldable pub splash_check : Surface → ℤ → ℤ → ℤ → List Pixel → List Pixel
unfolding splash_circle splash_line
splash_check s center_x center_y radius p =
    let ring = splash_circle s center_x center_y radius (pos 3) color_green p in
    let short =
      splash_line s (center_x -ℤ radius /ℤ 2) center_y (center_x -ℤ radius /ℤ 8)
        (center_y +ℤ radius /ℤ 3) 4 color_green ring in
    splash_line s (center_x -ℤ radius /ℤ 8) (center_y +ℤ radius /ℤ 3) (center_x +ℤ radius /ℤ 2)
      (center_y -ℤ radius /ℤ 3) 4 color_green short

unfoldable pub splash_terminal_icon : Surface → ℤ → ℤ → List Pixel → List Pixel
unfolding splash_outline_rect splash_line
splash_terminal_icon s x y p =
    let frame =
      splash_outline_rect s (u32_ℤ (x -ℤ pos 34)) (u32_ℤ (y -ℤ pos 24)) 68 48 3 color_cyan p in
    let upper =
      splash_line s (x -ℤ pos 22) (y -ℤ pos 4) (x -ℤ pos 10) (y +ℤ pos 6) 3 color_cyan frame in
    let lower =
      splash_line s (x -ℤ pos 10) (y +ℤ pos 6) (x -ℤ pos 22) (y +ℤ pos 16) 3 color_cyan upper in
    splash_line s (x -ℤ pos 4) (y +ℤ pos 16) (x +ℤ pos 18) (y +ℤ pos 16) 3 color_cyan lower

unfoldable pub splash_driver_icon : Surface → ℤ → ℤ → List Pixel → List Pixel
unfolding splash_circle splash_line
splash_driver_icon s x y p =
    let wheel = splash_circle s x y (pos 24) (pos 4) color_cyan p in
    let hub = splash_circle s x y (pos 8) (pos 3) color_cyan wheel in
    let top = splash_line s x (y -ℤ pos 35) x (y -ℤ pos 24) 4 color_cyan hub in
    let bottom = splash_line s x (y +ℤ pos 24) x (y +ℤ pos 35) 4 color_cyan top in
    let left = splash_line s (x -ℤ pos 35) y (x -ℤ pos 24) y 4 color_cyan bottom in
    splash_line s (x +ℤ pos 24) y (x +ℤ pos 35) y 4 color_cyan left

unfoldable pub splash_display_icon : Surface → ℤ → ℤ → List Pixel → List Pixel
unfolding splash_outline_rect splash_line splash_text
splash_display_icon s x y p =
    let frame =
      splash_outline_rect s (u32_ℤ (x -ℤ pos 36)) (u32_ℤ (y -ℤ pos 25)) 72 45 3 color_cyan p in
    let stand = splash_line s x (y +ℤ pos 20) x (y +ℤ pos 31) 3 color_cyan frame in
    let base =
      splash_line s (x -ℤ pos 16) (y +ℤ pos 31) (x +ℤ pos 16) (y +ℤ pos 31) 3 color_cyan stand in
    splash_text s (ascii "USB") (u32_ℤ (x -ℤ pos 18)) (u32_ℤ (y -ℤ pos 8)) 2 color_cyan base

-- The heading, and the line above the icons.
unfoldable pub draw_heading : Surface → List Pixel → List Pixel
unfolding splash_fill splash_fill_rect splash_text splash_check splash_centered_text
draw_heading s p0 =
    let p1 = splash_fill s color_background p0 in
    let p2 = splash_fill_rect s 0 0 960 5 color_cyan p1 in
    let p3 = splash_text s (ascii "USB DISPLAY SERVICE") 45 24 2 color_muted p2 in
    let p4 = splash_check s (pos 754) (pos 34) (pos 18) p3 in
    let p5 = splash_text s (ascii "CONNECTED") 785 24 3 color_green p4 in
    let p6 = splash_centered_text s (ascii "USBDISPLAYSTACK") 67 6 color_white p5 in
    splash_centered_text s (ascii "USB DISPLAY TRANSPORT") 118 2 color_muted p6

-- The three icons and what connects them.
unfoldable pub draw_icons : Surface → List Pixel → List Pixel
unfolding splash_text splash_line splash_circle splash_terminal_icon splash_driver_icon
    splash_display_icon
draw_icons s p0 =
    let p1 = splash_text s (ascii "SOFTWARE") 123 157 2 color_cyan p0 in
    let p2 = splash_text s (ascii "DRIVER") 445 157 2 color_cyan p1 in
    let p3 = splash_text s (ascii "USB DISPLAY") 725 157 2 color_cyan p2 in
    let p4 = splash_line s (pos 222) (pos 226) (pos 428) (pos 226) 3 color_cyan p3 in
    let p5 = splash_line s (pos 532) (pos 226) (pos 738) (pos 226) 3 color_cyan p4 in
    let p6 = splash_circle s (pos 170) (pos 226) (pos 52) (pos 3) color_cyan p5 in
    let p7 = splash_circle s (pos 480) (pos 226) (pos 52) (pos 3) color_cyan p6 in
    let p8 = splash_circle s (pos 790) (pos 226) (pos 52) (pos 3) color_cyan p7 in
    let p9 = splash_terminal_icon s (pos 170) (pos 226) p8 in
    let p10 = splash_driver_icon s (pos 480) (pos 226) p9 in
    splash_display_icon s (pos 790) (pos 226) p10

unfoldable pub draw_status : Surface → List Pixel → List Pixel
unfolding splash_fill_rect splash_check splash_text
draw_status s p0 =
    let p1 = splash_fill_rect s 45 312 870 126 color_panel p0 in
    let p2 = splash_fill_rect s 45 312 6 126 color_green p1 in
    let p3 = splash_check s (pos 111) (pos 375) (pos 30) p2 in
    let p4 = splash_text s (ascii "TRANSPORT STATUS") 164 337 2 color_muted p3 in
    let p5 = splash_text s (ascii "CONNECTED") 164 366 5 color_green p4 in
    let p6 = splash_fill_rect s 520 334 2 82 color_line p5 in
    let p7 = splash_text s (ascii "DRIVER AND USB TRANSPORT READY") 551 350 2 color_white p6 in
    splash_text s (ascii "WAITING FOR APPLICATION") 593 391 2 color_muted p7

-- The foot, with the version of the build.
unfoldable pub draw_foot : List ℕ → Surface → List Pixel → List Pixel
unfolding splash_fill_rect splash_text splash_outline_rect splash_text_fit_scale splash_text_width
draw_foot version s p0 =
    let version_text = ascii "VERSION " ++ version in
    let p1 = splash_fill_rect s 45 463 870 2 color_line p0 in
    let p2 =
      splash_text s (ascii "https://gitee.com/IoTSharp/USBDisplayStack") 45 489 2 color_white p1 in
    let p3 = splash_text s (ascii "QQ:100860505") 575 489 2 color_cyan p2 in
    let p4 = splash_outline_rect s 741 478 174 36 2 color_line p3 in
    let scale = splash_text_fit_scale version_text 154 2 in
    splash_text s version_text (u32 (741 + sub32 174 (splash_text_width version_text scale) / 2))
      489 scale color_muted p4

-- With a size_t of up to SIZE_MAX.
unfoldable pub usbdisplay_splash_bytes : ℕ → ℕ → ℕ → ℕ
usbdisplay_splash_bytes size_max width height =
    let row_bytes = width * 4 % suc size_max in
    if ltb 0 width && ltb 0 height
    then if row_bytes / 4 == width && leb row_bytes (size_max / height)
      then row_bytes * height % suc size_max
      else 0
    else 0

unfoldable pub render_refused : Bool → ℕ → ℕ → ℕ → Bool
render_refused has_pixels width height stride_bytes =
    not has_pixels
    || width == 0
    || height == 0
    || ltb stride_bytes (u32 (width * 4))
    || not (stride_bytes % 4 == 0)

-- `version` is USBDISPLAY_VERSION, which the build sets, and `has_pixels` says that the pointer to the
-- pixels is not NULL.
unfoldable pub usbdisplay_splash_render :
    List ℕ → Bool → ℕ → ℕ → ℕ → List Pixel → List Pixel × Status
unfolding render_refused draw_heading draw_icons draw_status draw_foot
usbdisplay_splash_render version has_pixels width height stride_bytes p =
    let s : Surface = record { width = width; height = height; stride = stride_bytes / 4 } in
    if render_refused has_pixels width height stride_bytes
    then (p, failure einval)
    else (draw_foot version s (draw_status s (draw_icons s (draw_heading s p))), success)
