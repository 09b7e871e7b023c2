-- ===== src/Splash/Line/Ends.antt =====
-- userspace/splash.c: the loop of splash_line reaches the end of the line.
use native.Mathlib.Nat.{mul-le-mul_right, mul_comm}
use usbdisplay_stack.Common.{
  ℕ, zero, suc, ◌+◌, ◌-◌, ◌*◌, ◌≤◌, ◌<◌, ◌≡◌, refl, ◌⊎◌, inl, inr, Bool, true, false, ◌&&◌, List,
  arith, if◌then◌else◌, ℤ, pos, negsuc, above, below, ◌+ℤ◌, ◌*ℤ◌, leb_ℤ, eqb_ℤ, +ℤ_parts, -ℤ_parts,
  ℤ_ext,
}
use usbdisplay_stack.Splash.Line.{
  course, draw_point, line_step, line_loop, start_line, line_fuel, Line, Course,
}
use usbdisplay_stack.Splash.Surface.{Surface, Pixel}

-- The loop after `across` steps in x and `along` steps in y, of `columns` and `rows` ones.
record IsUnderWay (c : Course) (columns rows across along : ℕ) (l : Line) : Type 0 where
  delta_x : c.delta_x ≡ pos columns
  delta_y : (above c.delta_y ≡ 0) × (below c.delta_y ≡ rows)
  in_x : across ≤ columns
  in_y : along ≤ rows
  to_x :
      (c.step_x ≡ pos 1) × (above l.x + below c.x1 + (columns - across) ≡ above c.x1 + below l.x)
      ⊎ (c.step_x ≡ negsuc 0)
        × (above l.x + below c.x1 ≡ above c.x1 + below l.x + (columns - across))
  to_y :
      (c.step_y ≡ pos 1) × (above l.y + below c.y1 + (rows - along) ≡ above c.y1 + below l.y)
      ⊎ (c.step_y ≡ negsuc 0) × (above l.y + below c.y1 ≡ above c.y1 + below l.y + (rows - along))
  error : above l.error + (suc across * rows) ≡ below l.error + (suc along * columns)

-- The error decides for a step in x only while the end is not reached in x, and so for y.
steps_left :
    (columns rows across along over under : ℕ)
    → across ≤ columns
    → along ≤ rows
    → (across < columns) ⊎ (along < rows)
    → over + suc across * rows ≡ under + suc along * columns
    → (2 * under ≤ 2 * over + rows → across < columns)
      × (2 * over ≤ 2 * under + columns → along < rows)
steps_left columns rows across along over under in_x in_y left e =
    let far : columns ≤ across → columns * rows ≤ across * rows = mul-le-mul_right rows in
    let near : suc across ≤ columns → suc across * rows ≤ columns * rows = mul-le-mul_right rows in
    let high : rows ≤ along → rows * columns ≤ along * columns = mul-le-mul_right columns in
    let low : suc along ≤ rows → suc along * columns ≤ rows * columns = mul-le-mul_right columns in
    ground (arith, far, near, high, low, mul_comm rows columns)

line_step-IsUnderWay :
    (c : Course) (columns rows across along : ℕ) (l : Line)
    → IsUnderWay c columns rows across along l
    → (across < columns) ⊎ (along < rows)
    → (across' : ℕ) × (along' : ℕ) × IsUnderWay c columns rows across' along' (line_step c l)
      × (across + along < across' + along')
unfolding line_step
line_step-IsUnderWay c columns rows across along l v left =
    let (x_left, y_left) =
      steps_left columns rows across along (above l.error) (below l.error) v.in_x v.in_y left
        v.error in
    let in_x = leb_ℤ c.delta_y (pos 2 *ℤ l.error) in
    let in_y = leb_ℤ (pos 2 *ℤ l.error) c.delta_x in
    (
      if in_x then suc across else across,
      if in_y then suc along else along,
      record {
        delta_x = v.delta_x;
        delta_y = v.delta_y;
        in_x = ground (arith, x_left);
        in_y = ground (arith, y_left);
        to_x = ground (arith, +ℤ_parts l.x c.step_x, x_left);
        to_y = ground (arith, +ℤ_parts l.y c.step_y, y_left);
        error = ground (
          arith,
          +ℤ_parts l.error c.delta_y,
          +ℤ_parts l.error c.delta_x,
          +ℤ_parts (l.error +ℤ c.delta_y) c.delta_x,
        );
      },
      ground arith,
    )

draw_point-IsUnderWay :
    (s : Surface) (thickness color : ℕ) (c : Course) (columns rows across along : ℕ) (l : Line)
    → IsUnderWay c columns rows across along l
    → IsUnderWay c columns rows across along (draw_point s thickness color l)
unfolding draw_point
draw_point-IsUnderWay s thickness color c columns rows across along l v = record {
  delta_x = v.delta_x;
  delta_y = v.delta_y;
  in_x = v.in_x;
  in_y = v.in_y;
  to_x = v.to_x;
  to_y = v.to_y;
  error = v.error;
}

-- The point is the end of the line exactly when no step is left.
at_end :
    (c : Course) (columns rows across along : ℕ) (l : Line)
    → IsUnderWay c columns rows across along l
    → ((eqb_ℤ l.x c.x1 && eqb_ℤ l.y c.y1) ≡ true) × (l.x ≡ c.x1) × (l.y ≡ c.y1)
      ⊎ ((eqb_ℤ l.x c.x1 && eqb_ℤ l.y c.y1) ≡ false) × ((across < columns) ⊎ (along < rows))
at_end c columns rows across along l v =
    ground (arith, v.in_x, v.in_y, v.to_x, v.to_y, ℤ_ext l.x c.x1, ℤ_ext l.y c.y1)

HasEnded : Course → Line × Bool → Type 0
HasEnded c (l, complete) = (complete ≡ true) × (l.x ≡ c.x1) × (l.y ≡ c.y1)

ended_if :
    (c : Course) (test : Bool) (x y : Line × Bool)
    → ((test ≡ true) × HasEnded c x) ⊎ ((test ≡ false) × HasEnded c y)
    → HasEnded c (if test then x else y)
ended_if c true x y (inl (t, h)) = h
ended_if c true x y (inr (t, h)) = absurd (ground (arith, t))
ended_if c false x y (inl (t, h)) = absurd (ground (arith, t))
ended_if c false x y (inr (t, h)) = h

line_loop_ends :
    (fuel : ℕ) (s : Surface) (c : Course) (thickness color columns rows across along : ℕ) (l : Line)
    → IsUnderWay c columns rows across along l
    → columns + rows < fuel + (across + along)
    → HasEnded c (line_loop fuel s c thickness color l)
unfolding line_loop HasEnded draw_point
line_loop_ends zero s c thickness color columns rows across along l v enough =
    absurd (omega (arith, v.in_x, v.in_y))
line_loop_ends (suc fuel) s c thickness color columns rows across along l v enough =
    let drawn = draw_point s thickness color l in
    let shown = draw_point-IsUnderWay s thickness color c columns rows across along l v in
    let after = line_loop fuel s c thickness color (line_step c drawn) in
    let test = eqb_ℤ l.x c.x1 && eqb_ℤ l.y c.y1 in
    elim (at_end c columns rows across along l v) [
      | inl (over, x, y) ↦ ended_if c test (drawn, true) after (inl (over, (refl, x, y)))
      | inr (on, left) ↦
          let (across', along', w, more) =
            line_step-IsUnderWay c columns rows across along drawn shown left in
          ended_if c test (drawn, true) after
            (inr (
              on,
              line_loop_ends fuel s c thickness color columns rows across' along'
                  (line_step c drawn) w (omega arith),
            ))
    ]

start_line-IsUnderWay :
    (x0 y0 x1 y1 : ℤ) (p : List Pixel)
    → let c = course x0 y0 x1 y1 in
      IsUnderWay c (above c.delta_x) (below c.delta_y) 0 0 (start_line x0 y0 x1 y1 p)
unfolding course start_line
start_line-IsUnderWay x0 y0 x1 y1 p = record {
  delta_x = ground (arith, -ℤ_parts x1 x0, -ℤ_parts x0 x1);
  delta_y = ground (arith, -ℤ_parts y1 y0, -ℤ_parts y0 y1);
  in_x = omega arith;
  in_y = omega arith;
  to_x = ground (arith, -ℤ_parts x1 x0, -ℤ_parts x0 x1);
  to_y = ground (arith, -ℤ_parts y1 y0, -ℤ_parts y0 y1);
  error = ground (
    arith,
    -ℤ_parts x1 x0,
    -ℤ_parts x0 x1,
    -ℤ_parts y1 y0,
    -ℤ_parts y0 y1,
    +ℤ_parts (course x0 y0 x1 y1).delta_x (course x0 y0 x1 y1).delta_y,
  );
}

-- Whatever its ends, the loop of a line is left with the fuel of splash_line, and at the line's end.
pub splash_line_ends :
    (s : Surface) (x0 y0 x1 y1 : ℤ) (thickness color : ℕ) (p : List Pixel)
    → let c = course x0 y0 x1 y1 in
      let (l, complete) = line_loop (line_fuel c) s c thickness color (start_line x0 y0 x1 y1 p) in
      (complete ≡ true) × (l.x ≡ x1) × (l.y ≡ y1)
unfolding HasEnded course
splash_line_ends s x0 y0 x1 y1 thickness color p =
    let c = course x0 y0 x1 y1 in
    line_loop_ends (line_fuel c) s c thickness color (above c.delta_x) (below c.delta_y) 0 0
      (start_line x0 y0 x1 y1 p) (start_line-IsUnderWay x0 y0 x1 y1 p) (omega arith)
