-- ===== src/Actions/AccessUnit/Units.antt =====
-- backends/actions-micro/actions_micro_backend.c: the NAL units of a stream by their kind, and what the
-- loop of split_access_unit adds for them.
use mathlib.Core.List.{append-nil, append_assoc}
use usbdisplay_stack.Common.{
  ℕ, ◌+◌, ◌%◌, ◌≤◌, ◌≡◌, refl, sym, ap, ◌∙◌, inl, inr, Bool, true, false, ◌||◌, List, [], ◌∷◌, ◌++◌,
  arith, ◌==◌, if◌then◌else◌, Bool-cases, Status, success, length, length-append,
}
use usbdisplay_stack.Actions.AccessUnit.{max_encoded_bytes, is_configuration, AccessUnit}
use usbdisplay_stack.Actions.AccessUnit.Appending.{AllGranted}
use usbdisplay_stack.Actions.AccessUnit.Splitting.{NoStartCode, annex_b, Apart}
use usbdisplay_stack.Actions.Wire.{byte}

abbrev pub nal_type : List ℕ → ℕ
nal_type n = byte n 0 % 32

-- The NAL units that configure the decoder, in order.
unfoldable pub configurations : List (List ℕ) → List (List ℕ)
configurations [] = []
configurations (n ∷ nals) =
    if is_configuration (nal_type n) then n ∷ configurations nals else configurations nals

-- Those that are neither configuration nor access unit delimiter.
unfoldable pub pictures : List (List ℕ) → List (List ℕ)
pictures [] = []
pictures (n ∷ nals) =
    if is_configuration (nal_type n) || nal_type n == 9 then pictures nals else n ∷ pictures nals

unfoldable pub any_idr : List (List ℕ) → Bool
any_idr [] = false
any_idr (n ∷ nals) = nal_type n == 5 || any_idr nals

-- A NAL unit has a header byte, and no start code behind it.
abbrev pub IsNal : List ℕ → Type 0
IsNal [] = ⊥
IsNal (header ∷ body) = NoStartCode body

abbrev pub AllNals : List (Bool × List ℕ) → Type 0
AllNals [] = Unit {0}
AllNals ((long, n) ∷ units) = IsNal n × Apart n units × AllNals units

-- What a stretch of the loop adds.
pub record Added (a : AccessUnit) (nals : List (List ℕ)) (out : AccessUnit × Status) : Type 0 where
  pub configured :
      out.0.configuration.bytes ≡ a.configuration.bytes ++ annex_b (configurations nals)
  pub pictured : out.0.video.bytes ≡ a.video.bytes ++ annex_b (pictures nals)
  pub idr : out.0.idr ≡ (a.idr || any_idr nals)
  pub ok : out.1 ≡ success

-- Memory is granted, and there is room for the NAL units.
pub record HasRoom (a : AccessUnit) (nals : List (List ℕ)) : Type 0 where
  pub granted : AllGranted a.grants
  pub configuration_bounded : a.configuration.capacity ≤ max_encoded_bytes
  pub video_bounded : a.video.capacity ≤ max_encoded_bytes
  pub configuration_fits :
      length a.configuration.bytes + length (annex_b (configurations nals)) ≤ max_encoded_bytes
  pub video_fits : length a.video.bytes + length (annex_b (pictures nals)) ≤ max_encoded_bytes

pub annex_b_single :
    (header : ℕ) (body : List ℕ) → annex_b ((header ∷ body) ∷ []) ≡ 0 ∷ 0 ∷ 0 ∷ 1 ∷ header ∷ body
unfolding annex_b
annex_b_single header body = ap (λ xs. 0 ∷ 0 ∷ 0 ∷ 1 ∷ header ∷ xs) (append-nil body)

pub annex_b_cons :
    (n : List ℕ) (nals : List (List ℕ)) → annex_b (n ∷ nals) ≡ annex_b (n ∷ []) ++ annex_b nals
unfolding annex_b
annex_b_cons n nals = ap (λ xs. 0 ∷ 0 ∷ 0 ∷ 1 ∷ (xs ++ annex_b nals)) (sym (append-nil n))

annex_b-configurations :
    (n : List ℕ) (nals : List (List ℕ))
    → annex_b (configurations (n ∷ nals))
      ≡ annex_b (configurations (n ∷ [])) ++ annex_b (configurations nals)
unfolding configurations annex_b
annex_b-configurations n nals = elim (Bool-cases (is_configuration (nal_type n))) [
  | inl e ↦ rw e (annex_b_cons n (configurations nals))
  | inr e ↦ rw e
]

annex_b-pictures :
    (n : List ℕ) (nals : List (List ℕ))
    → annex_b (pictures (n ∷ nals)) ≡ annex_b (pictures (n ∷ [])) ++ annex_b (pictures nals)
unfolding pictures annex_b
annex_b-pictures n nals = elim (Bool-cases (is_configuration (nal_type n) || nal_type n == 9)) [
  | inl e ↦ rw e
  | inr e ↦ rw e (annex_b_cons n (pictures nals))
]

-- One NAL unit and then the rest.
pub Added-cons :
    (a a' : AccessUnit) (n : List ℕ) (nals : List (List ℕ)) (out : AccessUnit × Status)
    → Added a (n ∷ []) (a', success)
    → Added a' nals out
    → Added a (n ∷ nals) out
unfolding any_idr
Added-cons a a' n nals out x y = record {
  configured =
      y.configured
      ∙ ap (λ xs. xs ++ annex_b (configurations nals)) x.configured
      ∙ append_assoc a.configuration.bytes _ _
      ∙ ap (λ xs. a.configuration.bytes ++ xs) (sym (annex_b-configurations n nals));
  pictured =
      y.pictured
      ∙ ap (λ xs. xs ++ annex_b (pictures nals)) x.pictured
      ∙ append_assoc a.video.bytes _ _
      ∙ ap (λ xs. a.video.bytes ++ xs) (sym (annex_b-pictures n nals));
  idr = y.idr ∙ ap (λ p. p || any_idr nals) x.idr ∙ or_assoc a.idr (nal_type n == 5) (any_idr nals);
  ok = y.ok;
}
  where
    or_assoc : (p q r : Bool) → ((p || (q || false)) || r) ≡ (p || (q || r))
    or_assoc true q r = refl
    or_assoc false true r = refl
    or_assoc false false r = refl

-- What one NAL unit leaves of the room.
pub HasRoom-rest :
    (a a' : AccessUnit) (n : List ℕ) (nals : List (List ℕ))
    → HasRoom a (n ∷ nals)
    → Added a (n ∷ []) (a', success)
    → AllGranted a'.grants
    → a'.configuration.capacity ≤ max_encoded_bytes
    → a'.video.capacity ≤ max_encoded_bytes
    → HasRoom a' nals
HasRoom-rest a a' n nals r x g b c = record {
  granted = g;
  configuration_bounded = b;
  video_bounded = c;
  configuration_fits = fits _ _ _ x.configured (annex_b-configurations n nals) r.configuration_fits;
  video_fits = fits _ _ _ x.pictured (annex_b-pictures n nals) r.video_fits;
}
  where
    fits :
        (old one rest : List ℕ) {now all : List ℕ}
        → now ≡ old ++ one
        → all ≡ one ++ rest
        → length old + length all ≤ max_encoded_bytes
        → length now + length rest ≤ max_encoded_bytes
    fits old one rest p q h =
        omega (arith, ap length p, ap length q, length-append old one, length-append one rest)

-- Where a NAL unit of each kind belongs.
pub configuration_kind :
    (n : List ℕ) (nals : List (List ℕ))
    → is_configuration (nal_type n) ≡ true
    → (configurations (n ∷ nals) ≡ n ∷ configurations nals)
      × (pictures (n ∷ nals) ≡ pictures nals)
      × ((nal_type n == 5) ≡ false)
unfolding configurations pictures
configuration_kind n nals e = (rw e, rw e, ground arith)

pub delimiter_kind :
    (n : List ℕ) (nals : List (List ℕ))
    → is_configuration (nal_type n) ≡ false
    → (nal_type n == 9) ≡ true
    → (configurations (n ∷ nals) ≡ configurations nals)
      × (pictures (n ∷ nals) ≡ pictures nals)
      × ((nal_type n == 5) ≡ false)
unfolding configurations pictures
delimiter_kind n nals e f = (rw e, rw e (rw f), ground arith)

pub picture_kind :
    (n : List ℕ) (nals : List (List ℕ))
    → is_configuration (nal_type n) ≡ false
    → (nal_type n == 9) ≡ false
    → (configurations (n ∷ nals) ≡ configurations nals) × (pictures (n ∷ nals) ≡ n ∷ pictures nals)
unfolding configurations pictures
picture_kind n nals e f = (rw e, rw e (rw f))
