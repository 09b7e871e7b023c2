-- ===== src/Actions/Packing/Packed.antt =====
-- backends/actions-micro/actions_micro_backend.c: what pack_frame leaves.
use mathlib.Core.Path.{subst}
use native.Mathlib.Nat.{mul-le-mul_left, mul-le-mul_right, mul_comm}
use usbdisplay_stack.Common.{
  ℕ, ◌+◌, ◌*◌, ◌≤◌, ◌<◌, ◌≡◌, refl, sym, ◌≢◌, ◌⊎◌, inl, inr, Bool, Option, none, some, List, arith,
  u64, Status, success, failure, length, get_or, enotsup,
}
use usbdisplay_stack.Actions.AccessUnit.{reserve_buffer, Buffer}
use usbdisplay_stack.Actions.Packing.{pixel_bytes, pack_rows, pack_sized, pack_frame, FrameView}
use usbdisplay_stack.Actions.Packing.Laws.{length-pack_rows, get_or-pack_rows, reserve_exact}

-- A packed frame of pixels of `n` bytes: the visible bytes of every row, one row behind the other, in a
-- buffer that has room for them.
pub record IsPacked (f : FrameView) (n : ℕ) (b : Buffer) (packed : ℕ) : Type 0 where
  pub size : packed ≡ f.frame_height * (f.frame_width * n)
  pub some_bytes : 1 ≤ packed
  pub filled : length b.bytes ≡ packed
  pub room : packed ≤ b.capacity
  pub row_fits : f.frame_width * n ≤ f.frame_stride
  pub same_bytes :
      (row i : ℕ)
      → row < f.frame_height
      → i < f.frame_width * n
      → get_or b.bytes (row * (f.frame_width * n) + i) 0
        ≡ get_or f.frame_pixels (row * f.frame_stride + i) 0

rows-IsPacked :
    (f : FrameView) (n capacity : ℕ)
    → f.frame_height * f.frame_stride ≤ length f.frame_pixels
    → f.frame_width * n ≤ f.frame_stride
    → 1 ≤ f.frame_height * (f.frame_width * n)
    → f.frame_height * (f.frame_width * n) ≤ capacity
    → let packed = pack_rows f.frame_height (f.frame_width * n) f.frame_stride f.frame_pixels 0 in
      IsPacked f n
        (record { bytes = packed; capacity = capacity })
        (f.frame_height * (f.frame_width * n))
rows-IsPacked f n capacity long narrow nonempty room = record {
  size = refl;
  some_bytes = nonempty;
  filled =
      length-pack_rows (f.frame_width * n) f.frame_stride f.frame_pixels narrow f.frame_height 0
        (omega arith);
  room = room;
  row_fits = narrow;
  same_bytes = λ row i low k.
      get_or-pack_rows (f.frame_width * n) f.frame_stride f.frame_pixels narrow f.frame_height 0 row
        i (row * (f.frame_width * n) + i) (row * f.frame_stride + i) (omega arith) low k refl
        (omega arith);
}

-- The products do not wrap.
no_wrap :
    (width height n : ℕ)
    → n ≤ 4
    → width < 4294967296
    → width * 4 * height < 18446744073709551616
    → (u64 (width * n) ≡ width * n) × (u64 (width * n * height) ≡ height * (width * n))
no_wrap width height n h small page =
    let row = mul-le-mul_left width h in
    let rows = mul-le-mul_right height row in
    (omega (arith, row), omega (arith, rows, mul_comm height (width * n)))

-- A packed frame, or an error and the buffer's bytes as they were.
pub IsPackedOrNot : Buffer → FrameView → Option ℕ → Buffer × ℕ × List Bool × Status → Type 0
IsPackedOrNot b f size (b', packed, grants, result) =
    ((n : ℕ) × (size ≡ some n) × (result ≡ success) × IsPacked f n b' packed)
    ⊎ (result ≢ success) × (b'.bytes ≡ b.bytes)

pack_sized_lem :
    (grants : List Bool) (b : Buffer) (f : FrameView) (n : ℕ)
    → f.frame_height * f.frame_stride ≤ length f.frame_pixels
    → let row_bytes = f.frame_width * n in
      let required = f.frame_height * row_bytes in
      let (b', packed, grants', result) = pack_sized grants b f row_bytes required in
      (result ≡ success) × IsPacked f n b' packed ⊎ (result ≢ success) × (b'.bytes ≡ b.bytes)
unfolding pack_sized
pack_sized_lem grants b f n long =
    let required = f.frame_height * (f.frame_width * n) in
    let reserved = reserve_exact grants b required in
    let b' = (reserve_buffer grants b required required).0 in
    let packed = rows-IsPacked f n b'.capacity long in ground (arith, reserved, packed)

pixel_bytes_le : (format n : ℕ) → pixel_bytes format ≡ some n → n ≤ 4
unfolding pixel_bytes
pixel_bytes_le format n h = ground (arith, h)

-- For a frame whose memory holds its rows and whose size does not wrap, packing either succeeds with a
-- packed frame of a known format, in a buffer that has room for it, or fails with the buffer's bytes as
-- they were.
pub pack_frame_lem :
    (grants : List Bool) (b : Buffer) (f : FrameView)
    → f.frame_width < 4294967296
    → f.frame_width * 4 * f.frame_height < 18446744073709551616
    → f.frame_height * f.frame_stride ≤ length f.frame_pixels
    → IsPackedOrNot b f (pixel_bytes f.frame_format) (pack_frame grants b f)
unfolding pack_frame IsPackedOrNot
pack_frame_lem grants b f small page long = go (pixel_bytes f.frame_format) refl
  where
    go :
        (size : Option ℕ)
        → pixel_bytes f.frame_format ≡ size
        → IsPackedOrNot b f size (elim size as (λ _. Buffer × ℕ × List Bool × Status) [
          | none ↦ (b, 0, grants, failure enotsup)
          | some n ↦
              let row_bytes = u64 (f.frame_width * n) in
              pack_sized grants b f row_bytes (u64 (row_bytes * f.frame_height))
        ])
    go none e = inr (ground arith, refl)
    go (some n) e =
        let (row, rows) =
          no_wrap f.frame_width f.frame_height n (pixel_bytes_le f.frame_format n e) small page in
        let P : ℕ → ℕ → Type 0 = λ row_bytes required.
          IsPackedOrNot b f (some n) (pack_sized grants b f row_bytes required) in
        let exact : P (f.frame_width * n) (f.frame_height * (f.frame_width * n)) =
          elim (pack_sized_lem grants b f n long) [
            | inl (done, packed) ↦ inl (n, refl, done, packed)
            | inr other ↦ inr other
          ] in
        subst (λ r. P r (u64 (r * f.frame_height))) (sym row)
          (subst (P (f.frame_width * n)) (sym rows) exact)
