-- ===== src/Kernel/Fbdev/Laws.antt =====
-- kernel/usbdisplay_drv.c: the fixed mode of the framebuffer, and its publications.
use usbdisplay_stack.Common.{
  ℕ, ◌*◌, ◌≤◌, ◌<◌, ◌≡◌, refl, ap, ◌∙◌, some, [], arith, success, length, take,
}
use usbdisplay_stack.Kernel.Device.{bytes_per_pixel, Device}
use usbdisplay_stack.Kernel.Fbdev.{
  fbdev_publish, fbdev_open, fbdev_release, register_fbdev, ScreenInfo, FbInfo,
}
use usbdisplay_stack.Kernel.Probe.{Platform}
use usbdisplay_stack.Kernel.Publish.Laws.{Fits}
use usbdisplay_stack.Kernel.Publish.Ready.{frame_data, IsReady}
use usbdisplay_stack.Kernel.Publish.Snapshots.{publish_announces}
use usbdisplay_stack.Uapi.{format_xrgb8888, source_fbdev}

-- Every publication of the registered framebuffer on a ring that holds its mode fits.
fbdev-Fits :
    (p : Platform) (width height : ℕ) (info : FbInfo) (d : Device)
    → width ≤ 4096
    → d.width ≡ width
    → d.height ≡ height
    → width * 4 * height ≤ d.slot_bytes
    → info.screen ≡ (register_fbdev p width height).screen
    → info.line_length ≡ (register_fbdev p width height).line_length
    → Fits d (record {
      pixels = some info.screen_buffer;
      frame_width = info.screen.xres;
      frame_height = info.screen.yres;
      stride = info.line_length;
      format = format_xrgb8888;
      clips = [];
      source = source_fbdev;
    })
unfolding register_fbdev bytes_per_pixel
fbdev-Fits p width height info d w dw dh room screen line =
    let stride : info.line_length ≡ width * 4 = line ∙ (omega (arith, w)) in
    let xres : info.screen.xres ≡ width = ap (λ v. v.xres) screen in
    let yres : info.screen.yres ≡ height = ap (λ v. v.yres) screen in
    record {
      has_pixels = refl;
      known_format = omega arith;
      in_width = omega (arith, xres, dw);
      in_height = omega (arith, yres, dh);
      in_slot = rw (stride, yres) room;
    }

screen_bytes :
    (p : Platform) (width height : ℕ) (info : FbInfo)
    → width ≤ 4096
    → info.screen ≡ (register_fbdev p width height).screen
    → info.line_length ≡ (register_fbdev p width height).line_length
    → info.line_length * info.screen.yres ≡ width * 4 * height
unfolding register_fbdev
screen_bytes p width height info w screen line =
    let stride : info.line_length ≡ width * 4 = line ∙ omega (arith, w) in
    let yres : info.screen.yres ≡ height = ap (λ v. v.yres) screen in rw (stride, yres)

-- A synchronisation of the registered framebuffer publishes, if the mode is at most 4096 wide, the
-- device is ready, has the same mode and slots that hold a frame of it, the screen information is as
-- registered and the screen memory holds a frame: the next update is an fbdev frame of the mode, in
-- XRGB8888 with four bytes a pixel, and has the bytes of the whole screen.
pub fbdev_publish_lem :
    (p : Platform) (width height : ℕ) (info : FbInfo) (now : ℕ) (d : Device)
    → width ≤ 4096
    → d.width ≡ width
    → d.height ≡ height
    → width * 4 * height ≤ d.slot_bytes
    → info.screen ≡ (register_fbdev p width height).screen
    → info.line_length ≡ (register_fbdev p width height).line_length
    → width * 4 * height ≤ length info.screen_buffer
    → IsReady d
    → let (d', result) = fbdev_publish info now d in
      (result ≡ success)
      × (d'.latest_update.width ≡ width)
      × (d'.latest_update.height ≡ height)
      × (d'.latest_update.stride ≡ width * 4)
      × (d'.latest_update.format ≡ format_xrgb8888)
      × (d'.latest_update.source ≡ source_fbdev)
      × (frame_data d' d'.latest_update ≡ take (width * 4 * height) info.screen_buffer)
unfolding fbdev_publish register_fbdev
fbdev_publish_lem p width height info now d w dw dh room screen line long v =
    let f = fbdev-Fits p width height info d w dw dh room screen line in
    let bytes = screen_bytes p width height info w screen line in
    let (q, a, seq, t, uw, uh, us, uf, src, frame) =
      publish_announces d now _ v f (rw bytes long) in
    (
      q,
      uw ∙ ap (λ v. v.xres) screen,
      uh ∙ ap (λ v. v.yres) screen,
      us ∙ line ∙ omega (arith, w),
      uf,
      src,
      frame ∙ ap (λ n. take n info.screen_buffer) bytes,
    )

-- Eight bits each of red, green and blue, from the high byte to the low one, in a word whose top byte
-- is not used; the screen is neither panned nor rotated.
pub record HasLayout (v : ScreenInfo) : Type 0 where
  pub red_at : v.red ≡ record { offset = 16; length = 8; msb_right = 0 }
  pub green_at : v.green ≡ record { offset = 8; length = 8; msb_right = 0 }
  pub blue_at : v.blue ≡ record { offset = 0; length = 8; msb_right = 0 }
  pub no_alpha : v.transp ≡ record { offset = 24; length = 0; msb_right = 0 }
  pub not_panned : (v.xoffset ≡ 0) × (v.yoffset ≡ 0)
  pub plain : (v.grayscale ≡ 0) × (v.nonstd ≡ 0) × (v.rotate ≡ 0)

-- Opening and closing a user file leaves the count of producers as it was.
pub fbdev_release-open :
    (user : ℕ) (d : Device)
    → d.producer_open < 4294967296
    → (fbdev_release user (fbdev_open user d).0).0.producer_open ≡ d.producer_open
unfolding fbdev_open fbdev_release
fbdev_release-open user d h = ground arith
