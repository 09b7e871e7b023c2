-- ===== src/Splash/Surface/Filled.antt =====
-- userspace/splash.c: splash_fill leaves no visible pixel unwritten.
use mathlib.Core.Path.{subst}
use mathlib.Core.List.{Mem, mem-cons_self, mem-append_right}
use usbdisplay_stack.Common.{
  ℕ, zero, suc, ◌+◌, ◌-◌, ◌*◌, ◌≤◌, ◌<◌, sym, inl, inr, List, ◌∷◌, arith, ◌==◌, ==→eq, ==→ne,
  Bool-cases,
}
use usbdisplay_stack.Splash.Surface.{fill_columns, fill_rows, splash_fill, Surface, Pixel}
use usbdisplay_stack.Splash.Surface.Laws.{fill_columns-Draws, fill_rows-Draws, Draws}

pub Draws-Mem : {s : Surface} {p q : List Pixel} (x : Pixel) → Draws s p q → Mem x p → Mem x q
Draws-Mem {s} {p} {q} x d m = subst (Mem x) (sym d.added) (mem-append_right d.new m)

fill_columns_covers :
    (columns : ℕ) (s : Surface) (row column color : ℕ) (p : List Pixel) (i : ℕ)
    → row < s.height
    → columns ≤ s.width - column
    → column ≤ i
    → i < column + columns
    → Mem
        (record { index = row * s.stride + i; color = color })
        (fill_columns columns s row column color p)
unfolding fill_columns
fill_columns_covers zero s row column color p i h k low high = absurd (omega arith)
fill_columns_covers (suc columns) s row column color p i h k low high =
    let pixel : ℕ → Pixel = λ c. record { index = row * s.stride + c; color = color } in
    elim (Bool-cases (column == i)) [
      | inl same ↦
          subst
            (λ c. Mem (pixel c) (fill_columns columns s row (suc column) color (pixel column ∷ p)))
            (==→eq column i same)
            (Draws-Mem (pixel column)
              (fill_columns-Draws columns s row (suc column) color (pixel column ∷ p) h
                (omega arith))
              mem-cons_self)
      | inr apart ↦
          fill_columns_covers columns s row (suc column) color (pixel column ∷ p) i h (omega arith)
            (omega (arith, ==→ne column i apart)) (omega arith)
    ]

fill_rows_covers :
    (rows columns : ℕ) (s : Surface) (row column color : ℕ) (p : List Pixel) (r i : ℕ)
    → rows ≤ s.height - row
    → columns ≤ s.width - column
    → row ≤ r
    → r < row + rows
    → column ≤ i
    → i < column + columns
    → Mem
        (record { index = r * s.stride + i; color = color })
        (fill_rows rows columns s row column color p)
unfolding fill_rows
fill_rows_covers zero columns s row column color p r i h k top bottom low high =
    absurd (omega arith)
fill_rows_covers (suc rows) columns s row column color p r i h k top bottom low high =
    let pixel : ℕ → Pixel = λ y. record { index = y * s.stride + i; color = color } in
    let done = fill_columns columns s row column color p in
    elim (Bool-cases (row == r)) [
      | inl same ↦
          subst (λ y. Mem (pixel y) (fill_rows rows columns s (suc row) column color done))
            (==→eq row r same)
            (Draws-Mem (pixel row)
              (fill_rows-Draws rows columns s (suc row) column color done (omega arith) k)
              (fill_columns_covers columns s row column color p i (omega arith) k low high))
      | inr apart ↦
          fill_rows_covers rows columns s (suc row) column color done r i (omega arith) k
            (omega (arith, ==→ne row r apart)) (omega arith) low high
    ]

pub splash_fill_covers :
    (s : Surface) (color : ℕ) (p : List Pixel) (row column : ℕ)
    → row < s.height
    → column < s.width
    → Mem (record { index = row * s.stride + column; color = color }) (splash_fill s color p)
unfolding splash_fill
splash_fill_covers s color p row column h k =
    fill_rows_covers s.height s.width s 0 0 color p row column (omega arith) (omega arith)
      (omega arith) (omega arith) (omega arith) (omega arith)
