-- ===== src/Actions/Packing/Examples.antt =====
-- backends/actions-micro/actions_micro_backend.c: two rows of two pixels with padding.
use usbdisplay_stack.Common.{◌≡◌, refl, [], ◌∷◌, arith}
use usbdisplay_stack.Actions.AccessUnit.{double_capacity, reserve_buffer, Buffer}
use usbdisplay_stack.Actions.Packing.{pixel_bytes, pack_frame, FrameView}
use usbdisplay_stack.Actions.Packing.Packed.{IsPackedOrNot, pack_frame_lem}
use usbdisplay_stack.Uapi.{format_rgb565}

abbrev padded : FrameView
padded = record {
  frame_pixels = 1 ∷ 2 ∷ 3 ∷ 4 ∷ 0 ∷ 0 ∷ 5 ∷ 6 ∷ 7 ∷ 8 ∷ 0 ∷ 0 ∷ [];
  frame_width = 2;
  frame_height = 2;
  frame_stride = 6;
  frame_format = format_rgb565;
}

abbrev no_bytes : Buffer
no_bytes = record { bytes = []; capacity = 0 }

padded_packs : (pack_frame [] no_bytes padded).0.bytes ≡ 1 ∷ 2 ∷ 3 ∷ 4 ∷ 5 ∷ 6 ∷ 7 ∷ 8 ∷ []
unfolding pack_frame reserve_buffer double_capacity
padded_packs = refl

pack_frame_lem_example :
    IsPackedOrNot no_bytes padded (pixel_bytes format_rgb565) (pack_frame [] no_bytes padded)
pack_frame_lem_example = pack_frame_lem [] no_bytes padded (omega arith) (omega arith) (omega arith)
