-- ===== src/Actions/Video.antt =====
-- backends/actions-micro/actions_micro_backend.c: video messages, cut into reports that alternate
-- between the two HID interfaces (send_video_message).
pub mod Reports
pub mod Sending
use Prim.Native.Nat.{bit_or}
use usbdisplay_stack.Common.{
  ℕ, zero, suc, ◌+◌, ◌-◌, ◌*◌, ◌/◌, ◌%◌, ◌^◌, Bool, not, ◌||◌, List, [], ◌∷◌, ◌++◌, ltb, ◌==◌,
  if◌then◌else◌, u8, u32, u64, Status, success, failure, length, take, drop, replicate, e2big,
  enomem,
}
use usbdisplay_stack.Actions.Session.{Session}
use usbdisplay_stack.Actions.Transport.{next_outcome, rest_outcomes, send_report, Transport}
use usbdisplay_stack.Actions.Wire.{hid_payload_length, rrim, tadv}

abbrev pub inner_header_length : ℕ
inner_header_length = 32

-- The bytes that write_le16 and write_le32 store.
abbrev pub le16 : ℕ → List ℕ
le16 v = u8 v ∷ u8 (v / 256) ∷ []

abbrev pub le32 : ℕ → List ℕ
le32 v = u8 v ∷ u8 (v / 256) ∷ u8 (v / 65536) ∷ u8 (v / 16777216) ∷ []

-- The message: its 32-byte header, then the video data.
unfoldable pub video_message : Session → ℕ → List ℕ → List ℕ
video_message s data_flags video =
    let video_bytes = length video in
    le32 (u32 (inner_header_length + video_bytes))
    ++ (rrim
        ++ (le16 s.local_session
            ++ (le16 s.remote_session
                ++ (le32 3
                    ++ (tadv
                        ++ (le32 0 ++ (le32 data_flags ++ (le32 (u32 video_bytes) ++ video))))))))

-- (message_bytes + HID_PAYLOAD_LENGTH - 1) / HID_PAYLOAD_LENGTH, cast to uint32_t
unfoldable pub fragment_count : ℕ → ℕ
fragment_count message_bytes = u32 ((message_bytes + hid_payload_length - 1) / hid_payload_length)

-- fragment_count | (fragment_index << 16)
unfoldable pub fragment_info : ℕ → ℕ → ℕ
fragment_info count index = bit_or count (u32 (index * 2 ^ 16))

-- One report: the 14-byte header, the bytes of the fragment, and zeros up to 4096.
unfoldable pub video_report : ℕ → ℕ → ℕ → List ℕ → List ℕ
video_report endpoint sequence info fragment =
    ((if endpoint == 4 then 1 else 2) ∷ 2 ∷ [])
    ++ (le16 0
        ++ (le32 sequence
            ++ (le32 info
                ++ (le16 (length fragment)
                    ++ (fragment ++ replicate (hid_payload_length - length fragment) 0)))))

-- sleep_microseconds between two fragments
unfoldable pub sleep : Transport → Transport × Status
sleep t = (record t { outcomes = rest_outcomes t.outcomes }, next_outcome t.outcomes)

-- The sleep behind every fragment but the last.
unfoldable pub pause : ℕ → ℕ → Transport → Transport × Status
unfolding sleep
pause count index t = if ltb (index + 1) count then sleep t else (t, success)

-- What the loop does behind the write of a fragment, failed or not.
unfoldable pub behind_write : ℕ → ℕ → Transport × Status → Transport × Status
unfolding pause
behind_write count index (t1, result) =
    let t2 = record t1 { video_report_index = u64 (t1.video_report_index + 1) } in
    elim result [ failure e ↦ (t2, failure e) | success ↦ pause count index t2 ]

-- The body of the loop over the fragments.
unfoldable pub send_fragment : Session → List ℕ → ℕ → ℕ → Transport → Transport × Status
send_fragment s message count index t =
    let fragment = take hid_payload_length (drop (index * hid_payload_length) message) in
    let endpoint : ℕ = if t.video_report_index % 2 == 0 then 4 else 3 in
    let report = video_report endpoint t.video_sequence (fragment_info count index) fragment in
    behind_write count index (send_report s t endpoint report)

-- The loop: `rounds` are left, and `index` is the fragment at hand.
unfoldable pub send_fragments : Session → List ℕ → ℕ → ℕ → ℕ → Transport → Transport × Status
send_fragments s message count zero index t = (t, success)
send_fragments s message count (suc rounds) index t =
    let (t', result) = send_fragment s message count index t in
    let rest = send_fragments s message count rounds (index + 1) t' in
    elim result [ failure e ↦ (t', failure e) | success ↦ rest ]

-- `allocated` is whether malloc returned the message buffer.
unfoldable pub send_video_message : Session → Bool → ℕ → List ℕ → Transport → Transport × Status
send_video_message s allocated data_flags video t =
    let message = video_message s data_flags video in
    let count = fragment_count (inner_header_length + length video) in
    if ltb (4294967295 - inner_header_length) (length video)
    then (t, failure e2big)
    else if count == 0 || ltb 65535 count
    then (t, failure e2big)
    else if not allocated
    then (t, failure enomem)
    else (let (t', result) = send_fragments s message count count 0 t in
        (record t' { video_sequence = u32 (t'.video_sequence + 1) }, result))
