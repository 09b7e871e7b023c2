-- ===== src/Kernel/Fbdev.antt =====
-- kernel/usbdisplay_drv.c: the fbdev producer. The kernel's drawing functions (fb_sys_write,
-- sys_fillrect, ...) are not modelled: what they leave in the screen memory is an argument.
pub mod Laws
use Prim.Native.Nat.{bit_or}
use usbdisplay_stack.Common.{
  ℕ, ◌+◌, ◌*◌, ◌/◌, ◌^◌, not, ◌||◌, some, List, [], ltb, leb, ◌==◌, if◌then◌else◌, u32, sub32,
  Status, success, failure, Result, ok, err, set, replicate, einval,
}
use usbdisplay_stack.Kernel.Device.{Device}
use usbdisplay_stack.Kernel.Probe.{Platform}
use usbdisplay_stack.Kernel.Publish.{mul_size, memory, publish}
use usbdisplay_stack.Uapi.{format_xrgb8888, source_fbdev}

-- struct fb_bitfield and the fields of struct fb_var_screeninfo that the driver reads or writes
pub record Bitfield : Type 0 where
  pub offset : ℕ
  pub length : ℕ
  pub msb_right : ℕ

pub record ScreenInfo : Type 0 where
  pub xres : ℕ
  pub yres : ℕ
  pub xres_virtual : ℕ
  pub yres_virtual : ℕ
  pub bits_per_pixel : ℕ
  pub xoffset : ℕ
  pub yoffset : ℕ
  pub red : Bitfield
  pub green : Bitfield
  pub blue : Bitfield
  pub transp : Bitfield
  pub grayscale : ℕ
  pub nonstd : ℕ
  pub rotate : ℕ

-- struct fb_info
pub record FbInfo : Type 0 where
  pub screen : ScreenInfo
  pub line_length : ℕ
  pub smem_len : ℕ
  pub screen_buffer : List ℕ
  pub pseudo_palette : List ℕ

abbrev pub fb_bpp : ℕ
fb_bpp = 32

abbrev pub palette_size : ℕ
palette_size = 16

-- usbdisplay_fbdev_publish; usbdisplay_fbdev_sync and usbdisplay_fbdev_deferred_io are this call.
unfoldable pub fbdev_publish : FbInfo → ℕ → Device → Device × Status
fbdev_publish info now d = publish d now (record {
  pixels = some info.screen_buffer;
  frame_width = info.screen.xres;
  frame_height = info.screen.yres;
  stride = info.line_length;
  format = format_xrgb8888;
  clips = [];
  source = source_fbdev;
})

unfoldable pub producer_opened : Device → Device
producer_opened d = record d { producer_open = u32 (d.producer_open + 1) }

unfoldable pub producer_closed : Device → Device
producer_closed d = record d { producer_open = sub32 d.producer_open 1 }

unfoldable pub fbdev_open : ℕ → Device → Device × Status
unfolding producer_opened
fbdev_open user d = (if user == 0 then d else producer_opened d, success)

unfoldable pub fbdev_release : ℕ → Device → Device × Status
unfolding producer_closed
fbdev_release user d = (if user == 0 then d else producer_closed d, success)

-- `written` is what fb_sys_write returned, and `memory` the screen memory behind it. The status of the
-- publication is dropped.
unfoldable pub fbdev_write : Result ℕ → List ℕ → FbInfo → ℕ → Device → Device × FbInfo × Result ℕ
fbdev_write written memory info now d =
    let info' = record info { screen_buffer = memory } in
    elim written [
      | err e ↦ (d, info', err e)
      | ok n ↦ (if n == 0 then d else (fbdev_publish info' now d).0, info', ok n)
    ]

-- fillrect, copyarea and imageblit
unfoldable pub fbdev_draw : List ℕ → FbInfo → ℕ → Device → Device × FbInfo
fbdev_draw memory info now d =
    let info' = record info { screen_buffer = memory } in ((fbdev_publish info' now d).0, info')

unfoldable pub check_var : ℕ → ℕ → ScreenInfo → ScreenInfo × Status
check_var width height v =
    if not (v.xres == width)
      || not (v.yres == height)
      || not (v.bits_per_pixel == fb_bpp)
      || not (v.xres_virtual == width)
      || not (v.yres_virtual == height)
    then (v, failure einval)
    else (
      record v {
        xoffset = 0;
        yoffset = 0;
        red = record { offset = 16; length = 8; msb_right = 0 };
        green = record { offset = 8; length = 8; msb_right = 0 };
        blue = record { offset = 0; length = 8; msb_right = 0 };
        transp = record { offset = 24; length = 0; msb_right = 0 };
        grayscale = 0;
        nonstd = 0;
        rotate = 0;
      },
      success,
    )

-- (value << offset) in an unsigned int
abbrev shift_left : ℕ → ℕ → ℕ
shift_left value offset = u32 (value * 2 ^ offset)

unfoldable pub setcolreg : ℕ → ℕ → ℕ → ℕ → ℕ → FbInfo → FbInfo × Status
setcolreg register_number red green blue transparency info =
    let colour =
      bit_or
        (bit_or (shift_left (red / 256) info.screen.red.offset)
          (shift_left (green / 256) info.screen.green.offset))
        (shift_left (blue / 256) info.screen.blue.offset) in
    let value =
      if info.screen.transp.length == 0
      then colour
      else bit_or colour (shift_left (transparency / 256) info.screen.transp.offset) in
    if leb palette_size register_number
    then (info, failure einval)
    else (record info { pseudo_palette = set info.pseudo_palette register_number value }, success)

-- `mapped` is what fb_deferred_io_mmap returned.
unfoldable pub fbdev_mmap : ℕ → ℕ → Status → FbInfo → Status
fbdev_mmap pgoff requested mapped info =
    if not (pgoff == 0) || ltb info.smem_len requested then failure einval else mapped

-- The fields that usbdisplay_register_fbdev fills in.
unfoldable pub register_fbdev : Platform → ℕ → ℕ → FbInfo
register_fbdev p width height =
    let stride = u32 (width * (fb_bpp / 8)) in
    let fb_bytes = p.align (mul_size stride height) p.page_size in
    record {
      screen = record {
        xres = width;
        yres = height;
        xres_virtual = width;
        yres_virtual = height;
        bits_per_pixel = fb_bpp;
        xoffset = 0;
        yoffset = 0;
        red = record { offset = 16; length = 8; msb_right = 0 };
        green = record { offset = 8; length = 8; msb_right = 0 };
        blue = record { offset = 0; length = 8; msb_right = 0 };
        transp = record { offset = 24; length = 0; msb_right = 0 };
        grayscale = 0;
        nonstd = 0;
        rotate = 0;
      };
      line_length = stride;
      smem_len = u32 fb_bytes;
      screen_buffer = replicate fb_bytes 0;
      pseudo_palette = replicate palette_size 0;
    }
