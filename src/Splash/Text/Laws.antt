-- ===== src/Splash/Text/Laws.antt =====
-- userspace/splash.c: what the letters draw, and the scale that fits.
use mathlib.Core.Path.{subst}
use usbdisplay_stack.Common.{
  ℕ, zero, suc, ◌+◌, ◌-◌, ◌*◌, ◌/◌, ◌%◌, ◌^◌, ◌≤◌, ◌<◌, ◌≡◌, sym, ◌⊎◌, inl, inr, Bool, true, false,
  ◌&&◌, List, [], ◌∷◌, arith, ltb, ◌==◌, if◌then◌else◌, ==→eq, ==→ne, Bool-cases, u32,
}
use usbdisplay_stack.Splash.Surface.{splash_fill_rect, Surface, Pixel}
use usbdisplay_stack.Splash.Surface.Laws.{Draws-nothing, Draws-trans, splash_fill_rect-Draws, Draws}
use usbdisplay_stack.Splash.Text.{
  splash_find_glyph, splash_text_width, glyph_row, glyph_rows, splash_text, splash_centered_text,
  splash_text_fit_scale,
}

if-Draws :
    {s : Surface} {p : List Pixel} (test : Bool) (x y : List Pixel)
    → Draws s p x
    → Draws s p y
    → Draws s p (if test then x else y)
if-Draws true x y d e = d
if-Draws false x y d e = e

glyph_row-Draws :
    (left : ℕ) (s : Surface) (bits x y scale color : ℕ) (p : List Pixel)
    → Draws s p (glyph_row left s bits x y scale color p)
unfolding glyph_row
glyph_row-Draws zero s bits x y scale color p = Draws-nothing s p
glyph_row-Draws (suc left) s bits x y scale color p =
    Draws-trans
      (if-Draws (bits / 2 ^ left % 2 == 0) p
        (splash_fill_rect s (u32 (x + u32 ((4 - left) * scale))) y scale scale color p)
        (Draws-nothing s p)
        (splash_fill_rect-Draws s (u32 (x + u32 ((4 - left) * scale))) y scale scale color p))
      (glyph_row-Draws left s bits x y scale color _)

glyph_rows-Draws :
    (row : ℕ) (rows : List ℕ) (s : Surface) (x y scale color : ℕ) (p : List Pixel)
    → Draws s p (glyph_rows row rows s x y scale color p)
unfolding glyph_rows
glyph_rows-Draws row [] s x y scale color p = Draws-nothing s p
glyph_rows-Draws row (bits ∷ rows) s x y scale color p =
    Draws-trans (glyph_row-Draws 5 s bits x (u32 (y + u32 (row * scale))) scale color p)
      (glyph_rows-Draws (suc row) rows s x y scale color _)

pub splash_text-Draws :
    (s : Surface) (text : List ℕ) (x y scale color : ℕ) (p : List Pixel)
    → Draws s p (splash_text s text x y scale color p)
unfolding splash_text
splash_text-Draws s [] x y scale color p = Draws-nothing s p
splash_text-Draws s (character ∷ text) x y scale color p =
    Draws-trans (glyph_rows-Draws 0 (splash_find_glyph character).rows s x y scale color p)
      (splash_text-Draws s text (u32 (x + u32 (6 * scale))) y scale color _)

pub splash_centered_text-Draws :
    (s : Surface) (text : List ℕ) (y scale color : ℕ) (p : List Pixel)
    → Draws s p (splash_centered_text s text y scale color p)
unfolding splash_centered_text
splash_centered_text-Draws s text y scale color p = search splash_text-Draws

-- The largest scale of at most `preferred` at which the text is not too wide, or 1 when it is too wide
-- at every scale.
pub record IsFitting (text : List ℕ) (maximum_width preferred scale : ℕ) : Type 0 where
  pub positive : 1 ≤ scale
  pub at_most : scale ≤ preferred
  pub narrow : (scale ≡ 1) ⊎ (splash_text_width text scale ≤ maximum_width)
  pub largest :
      (larger : ℕ)
      → scale < larger
      → larger ≤ preferred
      → maximum_width < splash_text_width text larger

IsFitting-suc :
    {text : List ℕ} {maximum_width preferred scale : ℕ}
    → maximum_width < splash_text_width text (suc preferred)
    → IsFitting text maximum_width preferred scale
    → IsFitting text maximum_width (suc preferred) scale
IsFitting-suc {text} {maximum_width} {preferred} {scale} wide v = record {
  positive = v.positive;
  at_most = omega (arith, v.at_most);
  narrow = v.narrow;
  largest = λ larger h k. elim (Bool-cases (larger == suc preferred)) [
    | inl last ↦
        subst (λ n. maximum_width < splash_text_width text n)
          (sym (==→eq larger (suc preferred) last)) wide
    | inr before ↦ v.largest larger h (omega (arith, ==→ne larger (suc preferred) before))
  ];
}

-- From a preferred scale of at least one, the scale that fits is the largest one of at most the preferred
-- one at which the text is not too wide, or one when it is too wide at every scale.
pub splash_text_fit_scale_lem :
    (text : List ℕ) (maximum_width preferred : ℕ)
    → 1 ≤ preferred
    → IsFitting text maximum_width preferred (splash_text_fit_scale text maximum_width preferred)
unfolding splash_text_fit_scale
splash_text_fit_scale_lem text maximum_width zero h = absurd (omega arith)
splash_text_fit_scale_lem text maximum_width (suc scale) h =
    let rest = splash_text_fit_scale text maximum_width scale in
    let wide = ltb 0 scale && ltb maximum_width (splash_text_width text (suc scale)) in
    let P : Bool → Type 0 =
      λ test. IsFitting text maximum_width (suc scale) (if test then rest else suc scale) in
    elim (Bool-cases wide) [
      | inl holds ↦ subst P (sym holds) (
          IsFitting-suc (ground (arith, holds))
            (splash_text_fit_scale_lem text maximum_width scale (ground (arith, holds))))
      | inr fails ↦ subst P (sym fails) (record {
        positive = omega arith;
        at_most = omega arith;
        narrow = ground (arith, fails);
        largest = λ larger k m. absurd (omega (arith, k, m));
      })
    ]
