-- ===== src/Actions/Packing.antt =====
-- backends/actions-micro/actions_micro_backend.c: the rows of a frame without their padding
-- (pack_frame).
mod Examples
pub mod Laws
pub mod Packed
use usbdisplay_stack.Common.{
  ℕ, zero, suc, ◌+◌, ◌*◌, Bool, ◌||◌, Option, none, some, List, [], ◌++◌, ltb, ◌==◌, if◌then◌else◌,
  u64, Status, success, failure, take, drop, eproto, enotsup,
}
use usbdisplay_stack.Actions.AccessUnit.{reserve_buffer, Buffer}
use usbdisplay_stack.Uapi.{format_rgb565, format_xrgb8888}

-- What the backend reads of struct usbdisplay_frame.
pub record FrameView : Type 0 where
  pub frame_pixels : List ℕ
  pub frame_width : ℕ
  pub frame_height : ℕ
  pub frame_stride : ℕ
  pub frame_format : ℕ

unfoldable pub pixel_bytes : ℕ → Option ℕ
pixel_bytes format =
    if format == format_xrgb8888 then some 4 else if format == format_rgb565 then some 2 else none

-- The loop: so many rows from `offset` on, each behind the last in the packed frame.
unfoldable pub pack_rows : ℕ → ℕ → ℕ → List ℕ → ℕ → List ℕ
pack_rows zero row_bytes stride pixels offset = []
pack_rows (suc rows) row_bytes stride pixels offset =
    take row_bytes (drop offset pixels) ++ pack_rows rows row_bytes stride pixels (offset + stride)

-- With the sizes of a row and of the packed frame: the packed frame, *packed_bytes, the grants that are
-- left and the result.
unfoldable pub pack_sized : List Bool → Buffer → FrameView → ℕ → ℕ → Buffer × ℕ × List Bool × Status
unfolding pack_rows
pack_sized grants b f row_bytes required =
    let (b', grants', result) = reserve_buffer grants b required required in
    let packed = pack_rows f.frame_height row_bytes f.frame_stride f.frame_pixels 0 in
    if ltb f.frame_stride row_bytes || required == 0
    then (b, 0, grants, failure eproto)
    else elim result [
      | failure e ↦ (b', 0, grants', failure e)
      | success ↦ (record b' { bytes = packed }, required, grants', success)
    ]

unfoldable pub pack_frame : List Bool → Buffer → FrameView → Buffer × ℕ × List Bool × Status
unfolding pixel_bytes pack_sized
pack_frame grants b f = elim (pixel_bytes f.frame_format) [
  | none ↦ (b, 0, grants, failure enotsup)
  | some n ↦
      let row_bytes = u64 (f.frame_width * n) in
      pack_sized grants b f row_bytes (u64 (row_bytes * f.frame_height))
]
