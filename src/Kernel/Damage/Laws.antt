-- ===== src/Kernel/Damage/Laws.antt =====
-- kernel/usbdisplay_drv.c: the damage rectangle lies in the frame and covers every clip.
use usbdisplay_stack.Common.{ℕ, ◌+◌, ◌≤◌, ◌<◌, ◌≡◌, ◌⊎◌, inl, inr, List, [], ◌∷◌, arith}
use usbdisplay_stack.Uapi.{Update}
use usbdisplay_stack.Kernel.Damage.{merge_clips, clamp_damage, set_damage, Clip}

pub record DamageInFrame (u : Update) : Type 0 where
  pub right : u.damage_x + u.damage_width ≤ u.width
  pub bottom : u.damage_y + u.damage_height ≤ u.height

-- A pixel of the frame that a clip of the list covers.
abbrev pub InClip : ℕ → ℕ → Clip → Type 0
InClip x y c = (c.x1 ≤ x) × (x < c.x2) × (c.y1 ≤ y) × (y < c.y2)

abbrev pub InClips : ℕ → ℕ → List Clip → Type 0
InClips x y [] = ⊥
InClips x y (c ∷ clips) = InClip x y c ⊎ InClips x y clips

abbrev pub InDamage : ℕ → ℕ → Update → Type 0
InDamage x y u =
    (u.damage_x ≤ x)
    × (x < u.damage_x + u.damage_width)
    × (u.damage_y ≤ y)
    × (y < u.damage_y + u.damage_height)

-- The dimensions of the frame and the other fields are not touched.
abbrev pub SameFrame : Update → Update → Type 0
SameFrame u v =
    (v.sequence ≡ u.sequence)
    × (v.timestamp_ns ≡ u.timestamp_ns)
    × (v.slot ≡ u.slot)
    × (v.width ≡ u.width)
    × (v.height ≡ u.height)
    × (v.stride ≡ u.stride)
    × (v.format ≡ u.format)
    × (v.source ≡ u.source)

-- The merged box grows: a pixel of the box it starts from stays in it.
merge_clips_grows :
    (x y : ℕ) (clips : List Clip) (box : Clip) → InClip x y box → InClip x y (merge_clips clips box)
unfolding merge_clips
merge_clips_grows x y [] box h = h
merge_clips_grows x y (c ∷ clips) box h = merge_clips_grows x y clips _ (omega arith)

-- The merged box holds every pixel of every clip.
merge_clips_covers :
    (x y : ℕ) (clips : List Clip) (box : Clip)
    → InClips x y clips
    → InClip x y (merge_clips clips box)
unfolding merge_clips
merge_clips_covers x y [] box h = absurd h
merge_clips_covers x y (c ∷ clips) box (inl h) = merge_clips_grows x y clips _ (omega arith)
merge_clips_covers x y (c ∷ clips) box (inr h) = merge_clips_covers x y clips _ h

clamp_damage_in_frame :
    (u : Update) (box : Clip) → DamageInFrame u → DamageInFrame (clamp_damage u box)
unfolding clamp_damage
clamp_damage_in_frame u box h = ground arith

clamp_damage_covers :
    (u : Update) (box : Clip) (x y : ℕ)
    → x < u.width
    → y < u.height
    → InClip x y box
    → InDamage x y (clamp_damage u box)
unfolding clamp_damage
clamp_damage_covers u box x y hx hy h = ground arith

-- Whatever the clips are, the damage rectangle lies inside the frame.
pub set_damage-DamageInFrame : (u : Update) (clips : List Clip) → DamageInFrame (set_damage u clips)
unfolding set_damage
set_damage-DamageInFrame u [] = omega arith
set_damage-DamageInFrame u (c ∷ clips) =
    clamp_damage_in_frame _ (merge_clips (c ∷ clips) _) (omega arith)

-- Every pixel of the frame that some clip covers lies in the damage rectangle.
pub set_damage_covers :
    (u : Update) (clips : List Clip) (x y : ℕ)
    → x < u.width
    → y < u.height
    → InClips x y clips
    → InDamage x y (set_damage u clips)
unfolding set_damage
set_damage_covers u [] x y hx hy h = absurd h
set_damage_covers u (c ∷ clips) x y hx hy h =
    clamp_damage_covers _ _ x y hx hy (merge_clips_covers x y (c ∷ clips) _ h)

clamp_damage_keeps : (u : Update) (box : Clip) → SameFrame u (clamp_damage u box)
unfolding clamp_damage
clamp_damage_keeps u box = ground arith

-- Only the four damage fields change.
pub set_damage_keeps : (u : Update) (clips : List Clip) → SameFrame u (set_damage u clips)
unfolding set_damage
set_damage_keeps u [] = omega arith
set_damage_keeps u (c ∷ clips) = clamp_damage_keeps _ (merge_clips (c ∷ clips) _)
