-- ===== src/Actions/Video/Reports.antt =====
-- backends/actions-micro/actions_micro_backend.c: the reports of one video message, and how a receiver
-- puts the message together again.
use Prim.Native.Nat.{bit_or}
use usbdisplay_stack.Common.{
  ℕ, zero, suc, ◌+◌, ◌-◌, ◌*◌, ◌/◌, ◌%◌, ◌^◌, ◌≤◌, ◌<◌, ◌≡◌, refl, sym, ap, ◌∙◌, List, [], ◌∷◌,
  ◌++◌, arith, ◌==◌, if◌then◌else◌, u8, u32, u64, length, take, drop, replicate, length-append,
  length-take, length-replicate, take-append-drop, bit_or_apart, drop_all, take-append_self,
  drop-drop,
}
use usbdisplay_stack.Actions.Video.{fragment_info, video_report}
use usbdisplay_stack.Actions.Wire.{hid_payload_length, read_le16, read_le32}

-- What a receiver takes from a report: as many bytes behind the header as the length field says.
unfoldable pub payload_of : List ℕ → List ℕ
payload_of r = take (read_le16 r 12) (drop 14 r)

unfoldable pub reassemble : List (ℕ × List ℕ) → List ℕ
reassemble [] = []
reassemble ((endpoint, r) ∷ reports) = payload_of r ++ reassemble reports

-- The reports of the fragments from `index` on.
unfoldable pub video_reports : List ℕ → ℕ → ℕ → ℕ → ℕ → ℕ → List (ℕ × List ℕ)
video_reports message count sequence zero index report_index = []
video_reports message count sequence (suc rounds) index report_index =
    let endpoint : ℕ = if report_index % 2 == 0 then 4 else 3 in
    (
      endpoint,
      video_report endpoint sequence (fragment_info count index)
          (take hid_payload_length (drop (index * hid_payload_length) message)),
    )
    ∷ video_reports message count sequence rounds (index + 1) (u64 (report_index + 1))

module _ (endpoint sequence info : ℕ) (fragment : List ℕ) (short : length fragment ≤ 4082) where
  payload_of-video_report : payload_of (video_report endpoint sequence info fragment) ≡ fragment
  unfolding payload_of video_report read_le16
  payload_of-video_report =
      let bytes : bit_or (u8 (length fragment)) (u8 (length fragment / 256) * 256)
          ≡ length fragment =
        bit_or_apart 8 (u8 (length fragment)) (u8 (length fragment / 256)) (omega arith)
        ∙ omega arith in
      rw bytes (take-append_self fragment _ (length fragment) refl)

  -- The fragment field of the header.
  pub read_le32-video_report :
      info < 4294967296 → read_le32 (video_report endpoint sequence info fragment) 8 ≡ info
  unfolding video_report read_le32
  read_le32-video_report h = rw (bit_or_apart 8 (u8 info) (u8 (info / 256)) (omega arith)) (
      rw (bit_or_apart 16 (u8 info + u8 (info / 256) * 256) (u8 (info / 65536)) (omega arith)) (
        bit_or_apart 24 (u8 info + u8 (info / 256) * 256 + u8 (info / 65536) * 65536)
          (u8 (info / 16777216)) (omega arith)
        ∙ omega arith))

  -- A report is always 4096 bytes.
  pub length-video_report : length (video_report endpoint sequence info fragment) ≡ 4096
  unfolding video_report
  length-video_report =
      let tail = length-append fragment (replicate (4082 - length fragment) 0) in
      omega (arith, tail, length-replicate {A = ℕ} (4082 - length fragment) 0)

-- The fragment count and the fragment index do not overlap in the header field.
pub fragment_info_lem :
    (count index : ℕ)
    → count < 65536
    → index < 65536
    → (fragment_info count index ≡ count + index * 65536) × (fragment_info count index < 4294967296)
unfolding fragment_info
fragment_info_lem count index h k =
    let shifted : u32 (index * 2 ^ 16) ≡ index * 65536 = omega arith in
    let sum : bit_or count (u32 (index * 2 ^ 16)) ≡ count + index * 65536 =
      ap (λ x. bit_or count x) shifted ∙ bit_or_apart 16 count index (omega arith) in
    (sum, omega (arith, sum))

-- Put together in order, the payloads are the message from the first of the fragments on.
pub reassemble-video_reports :
    (message : List ℕ) (count sequence rounds index report_index : ℕ)
    → length message ≤ (index + rounds) * 4082
    → reassemble (video_reports message count sequence rounds index report_index)
      ≡ drop (index * 4082) message
unfolding reassemble video_reports
reassemble-video_reports message count sequence zero index report_index h =
    sym (drop_all (index * 4082) message (omega arith))
reassemble-video_reports message count sequence (suc rounds) index report_index h =
    let rest = drop (index * 4082) message in
    let next : drop ((index + 1) * 4082) message ≡ drop 4082 rest =
      sym (drop-drop (index * 4082) 4082 ((index + 1) * 4082) message (omega arith)) in
    rw
      (payload_of-video_report _ sequence (fragment_info count index) (take 4082 rest)
        (omega (arith, length-take 4082 rest)))
      (rw
        (reassemble-video_reports message count sequence rounds (index + 1) (u64 (report_index + 1))
          (omega arith))
        (rw next (take-append-drop 4082 rest)))

pub length-video_reports :
    (message : List ℕ) (count sequence rounds index report_index : ℕ)
    → length (video_reports message count sequence rounds index report_index) ≡ rounds
unfolding video_reports
length-video_reports message count sequence zero index report_index = refl
length-video_reports message count sequence (suc rounds) index report_index =
    ap suc (length-video_reports message count sequence rounds (index + 1) (u64 (report_index + 1)))
