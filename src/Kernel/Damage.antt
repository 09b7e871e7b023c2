-- ===== src/Kernel/Damage.antt =====
-- kernel/usbdisplay_drv.c: the damage rectangle of an update, merged from a list of clips.
pub mod Laws
use usbdisplay_stack.Common.{ℕ, ◌-◌, min, max, not, ◌&&◌, List, [], ◌∷◌, ltb, ◌==◌, if◌then◌else◌}
use usbdisplay_stack.Uapi.{Update}

-- struct drm_clip_rect
pub record Clip : Type 0 where
  pub x1 : ℕ
  pub y1 : ℕ
  pub x2 : ℕ
  pub y2 : ℕ

unfoldable pub full_damage : Update → Update
full_damage u = record u {
  damage_x = 0;
  damage_y = 0;
  damage_width = u.width;
  damage_height = u.height;
}

-- The loop over `clips`: the box that holds them all, and the box it starts from.
unfoldable pub merge_clips : List Clip → Clip → Clip
merge_clips [] box = box
merge_clips (c ∷ clips) box = merge_clips clips (record {
  x1 = min box.x1 c.x1;
  y1 = min box.y1 c.y1;
  x2 = max box.x2 c.x2;
  y2 = max box.y2 c.y2;
})

-- The part of the function behind the loop: clamp to the frame, and keep a box that is not empty.
unfoldable pub clamp_damage : Update → Clip → Update
clamp_damage u box =
    let x1 = min box.x1 u.width in
    let y1 = min box.y1 u.height in
    let x2 = min box.x2 u.width in
    let y2 = min box.y2 u.height in
    if ltb x1 x2 && ltb y1 y2
    then record u { damage_x = x1; damage_y = y1; damage_width = x2 - x1; damage_height = y2 - y1 }
    else u

-- `clips == NULL` is the empty list.
unfoldable pub set_damage : Update → List Clip → Update
unfolding full_damage clamp_damage
set_damage u [] = full_damage u
set_damage u (c ∷ clips) =
    clamp_damage (full_damage u)
      (merge_clips (c ∷ clips) (record { x1 = u.width; y1 = u.height; x2 = 0; y2 = 0 }))
