-- ===== src/Splash/Page/Rendered.antt =====
-- userspace/splash.c: what usbdisplay_splash_render and usbdisplay_splash_bytes promise their caller.
use mathlib.Core.Path.{subst}
use mathlib.Core.List.{Mem}
use native.Mathlib.Nat.{
  mul-le-mul_right, mul_assoc, mod-eq_of_lt, mod-lt, le-div_iff_mul-le, le-mul_of_pos_right,
}
use usbdisplay_stack.Common.{
  ℕ, zero, suc, ◌+◌, ◌*◌, ◌/◌, ◌%◌, ◌≤◌, ◌<◌, ◌≡◌, refl, sym, ◌≢◌, ◌⊎◌, inl, inr, Bool, true, false,
  List, arith, leb, if◌then◌else◌, Bool-cases, Status, success, failure, einval,
}
use usbdisplay_stack.Splash.Page.{
  color_background, draw_heading, draw_icons, draw_status, draw_foot, usbdisplay_splash_bytes,
  render_refused, usbdisplay_splash_render,
}
use usbdisplay_stack.Splash.Page.Laws.{
  draw_heading-Draws, draw_icons-Draws, draw_status-Draws, draw_foot-Draws,
}
use usbdisplay_stack.Splash.Surface.{splash_fill, Surface, Pixel}
use usbdisplay_stack.Splash.Surface.Filled.{Draws-Mem, splash_fill_covers}
use usbdisplay_stack.Splash.Surface.Laws.{IsVisible, Draws-trans, splash_fill-Draws, Draws}

-- The surface of a buffer of `height` rows of so many bytes.
abbrev pub surface : ℕ → ℕ → ℕ → Surface
surface width height stride_bytes = record {
  width = width;
  height = height;
  stride = stride_bytes / 4;
}

-- Only visible pixels are written, all of these are, and their four bytes lie in the buffer.
pub record IsRendered (width height stride_bytes : ℕ) (before after : List Pixel) : Type 0 where
  pub draws : Draws (surface width height stride_bytes) before after
  pub covers :
      (row column : ℕ)
      → row < height
      → column < width
      → Mem (record { index = row * (stride_bytes / 4) + column; color = color_background }) after
  pub inside :
      (x : Pixel)
      → IsVisible (surface width height stride_bytes) x
      → x.index * 4 + 4 ≤ height * stride_bytes

visible_inside :
    (width height stride : ℕ) (x : Pixel)
    → width ≤ stride
    → IsVisible (record { width = width; height = height; stride = stride }) x
    → x.index * 4 + 4 ≤ height * (stride * 4)
visible_inside width height stride x wide (row, column, low, left, at) =
    let rows : suc row * stride ≤ height * stride = mul-le-mul_right stride low in
    omega (arith, mul_assoc height stride 4)

page-Draws :
    (version : List ℕ) (s : Surface) (p : List Pixel)
    → Draws s
        (splash_fill s color_background p)
        (draw_foot version s (draw_status s (draw_icons s (draw_heading s p))))
page-Draws version s p = Draws-trans (draw_heading-Draws s p) (
    Draws-trans (draw_icons-Draws s _)
      (Draws-trans (draw_status-Draws s _) (draw_foot-Draws version s _)))

page-IsRendered :
    (version : List ℕ) (width height stride_bytes : ℕ) (p : List Pixel)
    → width * 4 ≤ stride_bytes
    → stride_bytes % 4 ≡ 0
    → let s = surface width height stride_bytes in
      IsRendered width height stride_bytes p
        (draw_foot version s (draw_status s (draw_icons s (draw_heading s p))))
page-IsRendered version width height stride_bytes p wide aligned =
    let s = surface width height stride_bytes in
    let drawn = page-Draws version s p in
    let bytes : stride_bytes / 4 * 4 ≡ stride_bytes = omega arith in
    record {
      draws = Draws-trans (splash_fill-Draws s color_background p) drawn;
      covers = λ row column low left.
          Draws-Mem _ drawn (splash_fill_covers s color_background p row column low left);
      inside = λ x v.
          subst (λ n. x.index * 4 + 4 ≤ height * n) bytes
            (visible_inside width height (stride_bytes / 4) x (omega arith) v);
    }

-- The page, or EINVAL with nothing written and the reason.
pub IsRenderedOrRefused : Bool → ℕ → ℕ → ℕ → List Pixel → List Pixel × Status → Type 0
IsRenderedOrRefused has_pixels width height stride_bytes p (p', result) =
    (result ≡ success)
      × (1 ≤ width)
      × (1 ≤ height)
      × (width * 4 ≤ stride_bytes)
      × IsRendered width height stride_bytes p p'
    ⊎ (result ≡ failure einval)
      × (p' ≡ p)
      × ((has_pixels ≡ false)
          ⊎ (width ≡ 0)
          ⊎ (height ≡ 0)
          ⊎ (stride_bytes < width * 4)
          ⊎ (stride_bytes % 4 ≢ 0))

refused_why :
    (has_pixels : Bool) (width height stride_bytes : ℕ)
    → width < 1073741824
    → render_refused has_pixels width height stride_bytes ≡ true
    → (has_pixels ≡ false)
      ⊎ (width ≡ 0)
      ⊎ (height ≡ 0)
      ⊎ (stride_bytes < width * 4)
      ⊎ (stride_bytes % 4 ≢ 0)
unfolding render_refused
refused_why has_pixels width height stride_bytes small bad = ground arith

accepted_when :
    (has_pixels : Bool) (width height stride_bytes : ℕ)
    → width < 1073741824
    → render_refused has_pixels width height stride_bytes ≡ false
    → (1 ≤ width) × (1 ≤ height) × (width * 4 ≤ stride_bytes) × (stride_bytes % 4 ≡ 0)
unfolding render_refused
accepted_when has_pixels width height stride_bytes small good = ground arith

-- For a width below 2^30, rendering draws the page, on a stride of at least the width, with only visible
-- pixels written, all of them written, and all of them inside the buffer; or it answers EINVAL with
-- nothing written, and only for no pixels, an empty size, or a stride that is too short or no multiple
-- of four.
pub usbdisplay_splash_render_lem :
    (version : List ℕ) (has_pixels : Bool) (width height stride_bytes : ℕ) (p : List Pixel)
    → width < 1073741824
    → IsRenderedOrRefused has_pixels width height stride_bytes p
        (usbdisplay_splash_render version has_pixels width height stride_bytes p)
unfolding usbdisplay_splash_render IsRenderedOrRefused
usbdisplay_splash_render_lem version has_pixels width height stride_bytes p small =
    let s = surface width height stride_bytes in
    let drawn = draw_foot version s (draw_status s (draw_icons s (draw_heading s p))) in
    let P : Bool → Type 0 = λ test.
      IsRenderedOrRefused has_pixels width height stride_bytes p
        (if test then (p, failure einval) else (drawn, success)) in
    elim (Bool-cases (render_refused has_pixels width height stride_bytes)) [
      | inl bad ↦
          subst P (sym bad)
            (inr (refl, refl, refused_why has_pixels width height stride_bytes small bad))
      | inr good ↦
          let (a, b, c, d) = accepted_when has_pixels width height stride_bytes small good in
          subst P (sym good)
            (inl (refl, a, b, c, page-IsRendered version width height stride_bytes p c d))
    ]

-- The answer is the size of the pixels, or 0 if a size_t does not hold it.
pub usbdisplay_splash_bytes_lem :
    (size_max width height : ℕ)
    → usbdisplay_splash_bytes size_max width height
      ≡ (if leb (width * 4 * height) size_max then width * 4 * height else 0)
unfolding usbdisplay_splash_bytes
usbdisplay_splash_bytes_lem size_max zero height = ground arith
usbdisplay_splash_bytes_lem size_max (suc columns) zero = ground arith
usbdisplay_splash_bytes_lem size_max (suc columns) (suc rows) =
    let n = suc columns * 4 in
    let row = n % suc size_max in
    let wrapped : row < suc size_max = mod-lt n (omega arith) in
    let kept : n < suc size_max → row ≡ n = mod-eq_of_lt in
    let fits = le-div_iff_mul-le {k = suc rows} {x = row} {y = size_max} (omega arith) in
    let whole_page : row * suc rows < suc size_max
        → row * suc rows % suc size_max ≡ row * suc rows =
      mod-eq_of_lt in
    let more : n ≤ n * suc rows = le-mul_of_pos_right n (omega arith) in
    ground (arith, wrapped, kept, fits.0, fits.1, whole_page, more)
