-- ===== src/Actions/Packing/Laws.antt =====
-- backends/actions-micro/actions_micro_backend.c: a packed frame is the visible bytes of its rows.
use usbdisplay_stack.Common.{
  ℕ, zero, suc, ◌+◌, ◌*◌, ◌≤◌, ◌<◌, ◌≡◌, refl, ap, ◌∙◌, ◌⊎◌, inl, inr, Bool, List, [], ◌∷◌, ◌++◌,
  arith, ltb, leb, leb→le, Bool-cases, Errno, success, failure, length, get_or, take, drop,
  length-append, length-take, length-drop, e2big, enomem,
}
use usbdisplay_stack.Actions.AccessUnit.{next_grant, grown_capacity, reserve_buffer, Buffer}
use usbdisplay_stack.Actions.Packing.{pack_rows}

module _ {ℓ} {A : Type ℓ} where
  get_or-append_left :
      (xs ys : List A) (i : ℕ) (d : A) → i < length xs → get_or (xs ++ ys) i d ≡ get_or xs i d
  get_or-append_left [] ys i d h = absurd (omega arith)
  get_or-append_left (x ∷ xs) ys zero d h = refl
  get_or-append_left (x ∷ xs) ys (suc i) d h = get_or-append_left xs ys i d (omega arith)

  get_or-append_right :
      (xs ys : List A) (i j : ℕ) (d : A) → j ≡ length xs + i → get_or (xs ++ ys) j d ≡ get_or ys i d
  get_or-append_right [] ys i j d h = ap (λ n. get_or ys n d) (omega (arith, h))
  get_or-append_right (x ∷ xs) ys i zero d h = absurd (omega (arith, h))
  get_or-append_right (x ∷ xs) ys i (suc j) d h = get_or-append_right xs ys i j d (omega (arith, h))

  get_or-drop :
      (n : ℕ) (xs : List A) (i j : ℕ) (d : A) → j ≡ n + i → get_or (drop n xs) i d ≡ get_or xs j d
  get_or-drop zero xs i j d h = ap (λ n. get_or xs n d) (omega (arith, h))
  get_or-drop (suc n) [] i j d h = refl
  get_or-drop (suc n) (x ∷ xs) i zero d h = absurd (omega (arith, h))
  get_or-drop (suc n) (x ∷ xs) i (suc j) d h = get_or-drop n xs i j d (omega (arith, h))

  get_or-take :
      (n : ℕ) (xs : List A) (i : ℕ) (d : A) → i < n → get_or (take n xs) i d ≡ get_or xs i d
  get_or-take zero xs i d h = absurd (omega arith)
  get_or-take (suc n) [] i d h = refl
  get_or-take (suc n) (x ∷ xs) zero d h = refl
  get_or-take (suc n) (x ∷ xs) (suc i) d h = get_or-take n xs i d (omega arith)

module _ (row_bytes stride : ℕ) (pixels : List ℕ) (narrow : row_bytes ≤ stride) where
  one_row :
      (offset : ℕ)
      → offset + stride ≤ length pixels
      → length (take row_bytes (drop offset pixels)) ≡ row_bytes
  one_row offset h =
      omega (arith, length-take row_bytes (drop offset pixels), length-drop offset pixels)

  pub length-pack_rows :
      (rows offset : ℕ)
      → offset + rows * stride ≤ length pixels
      → length (pack_rows rows row_bytes stride pixels offset) ≡ rows * row_bytes
  unfolding pack_rows
  length-pack_rows zero offset h = omega arith
  length-pack_rows (suc rows) offset h =
      let row = take row_bytes (drop offset pixels) in
      let rest = length-pack_rows rows (offset + stride) (omega arith) in
      omega (
        arith,
        length-append row (pack_rows rows row_bytes stride pixels (offset + stride)),
        rest,
        one_row offset (omega arith),
      )

  -- A byte of a row of the packed frame is that byte of the same row of the frame.
  pub get_or-pack_rows :
      (rows offset row i packed_at at : ℕ)
      → offset + rows * stride ≤ length pixels
      → row < rows
      → i < row_bytes
      → packed_at ≡ row * row_bytes + i
      → at ≡ offset + row * stride + i
      → get_or (pack_rows rows row_bytes stride pixels offset) packed_at 0 ≡ get_or pixels at 0
  unfolding pack_rows
  get_or-pack_rows zero offset row i packed_at at h low k p q = absurd (omega arith)
  get_or-pack_rows (suc rows) offset zero i packed_at at h low k p q =
      let first = take row_bytes (drop offset pixels) in
      let later = pack_rows rows row_bytes stride pixels (offset + stride) in
      let size = one_row offset (omega arith) in
      get_or-append_left first later packed_at 0 (omega (arith, size, p))
      ∙ get_or-take row_bytes (drop offset pixels) packed_at 0 (omega (arith, p))
      ∙ get_or-drop offset pixels packed_at at 0 (omega (arith, p, q))
  get_or-pack_rows (suc rows) offset (suc row) i packed_at at h low k p q =
      let first = take row_bytes (drop offset pixels) in
      let later = pack_rows rows row_bytes stride pixels (offset + stride) in
      let size = one_row offset (omega arith) in
      get_or-append_right first later (row * row_bytes + i) packed_at 0 (omega (arith, size, p))
      ∙ get_or-pack_rows rows (offset + stride) row i (row * row_bytes + i) at (omega arith)
          (omega arith) k refl (omega (arith, q))

-- With the room that was asked for, or an error.
pub reserve_exact :
    (grants : List Bool) (b : Buffer) (required : ℕ)
    → let (b', grants', result) = reserve_buffer grants b required required in
      (b'.bytes ≡ b.bytes)
      × ((result ≡ success) × (required ≤ b'.capacity) ⊎ ((e : Errno) × (result ≡ failure e)))
unfolding reserve_buffer
reserve_exact grants b required = elim (Bool-cases (leb required b.capacity)) [
  | inl e ↦ rw e (refl, inl (refl, leb→le _ _ e))
  | inr e ↦ elim (Bool-cases (ltb (grown_capacity b.capacity required required) required)) [
    | inl f ↦ rw (e, f) (refl, inr (e2big, refl))
    | inr f ↦ elim (Bool-cases (next_grant grants)) [
      | inl g ↦ rw (e, f, g) (refl, inl (refl, ground arith))
      | inr g ↦ rw (e, f, g) (refl, inr (enomem, refl))
    ]
  ]
]
