-- ===== src/Actions/Wire.antt =====
-- backends/actions-micro/actions_micro_backend.c: little-endian fields, tags and the session IDs of a
-- report. A pointer into a buffer is the buffer and an offset.
pub mod Laws
use Prim.Native.Nat.{bit_or}
use usbdisplay_stack.Common.{
  ℕ, ◌+◌, ◌-◌, ◌*◌, ◌/◌, ◌%◌, ◌^◌, Bool, true, false, not, ◌&&◌, ◌||◌, List, [], ◌∷◌, ltb, ◌==◌,
  if◌then◌else◌, u8, get_or, set,
}

abbrev pub hid_report_length : ℕ
hid_report_length = 4096

abbrev pub hid_header_length : ℕ
hid_header_length = 14

abbrev pub hid_payload_length : ℕ
hid_payload_length = hid_report_length - hid_header_length

-- data[i]
abbrev pub byte : List ℕ → ℕ → ℕ
byte d i = get_or d i 0

unfoldable pub read_le16 : List ℕ → ℕ → ℕ
read_le16 d o = bit_or (byte d o) (byte d (o + 1) * 2 ^ 8)

unfoldable pub read_le32 : List ℕ → ℕ → ℕ
read_le32 d o =
    bit_or (bit_or (bit_or (byte d o) (byte d (o + 1) * 2 ^ 8)) (byte d (o + 2) * 2 ^ 16))
      (byte d (o + 3) * 2 ^ 24)

unfoldable pub write_le16 : List ℕ → ℕ → ℕ → List ℕ
write_le16 d o v = set (set d o (u8 v)) (o + 1) (u8 (v / 2 ^ 8))

unfoldable pub write_le32 : List ℕ → ℕ → ℕ → List ℕ
write_le32 d o v =
    set (set (set (set d o (u8 v)) (o + 1) (u8 (v / 2 ^ 8))) (o + 2) (u8 (v / 2 ^ 16))) (o + 3)
      (u8 (v / 2 ^ 24))

-- memcmp(d + o, tag, length tag) == 0
unfoldable pub mem_eq : List ℕ → ℕ → List ℕ → Bool
mem_eq d o [] = true
mem_eq d o (t ∷ tag) = byte d o == t && mem_eq d (o + 1) tag

-- The message tags "CNYS", "_PPA", "RRIM", "GNIP" and "TADV".
abbrev pub cnys : List ℕ
cnys = 67 ∷ 78 ∷ 89 ∷ 83 ∷ []

abbrev pub ppa : List ℕ
ppa = 95 ∷ 80 ∷ 80 ∷ 65 ∷ []

abbrev pub rrim : List ℕ
rrim = 82 ∷ 82 ∷ 73 ∷ 77 ∷ []

abbrev pub gnip : List ℕ
gnip = 71 ∷ 78 ∷ 73 ∷ 80 ∷ []

abbrev pub tadv : List ℕ
tadv = 84 ∷ 65 ∷ 68 ∷ 86 ∷ []

-- The test of rewrite_report_session: the first fragment of a command or video message.
unfoldable pub carries_session : List ℕ → Bool
carries_session r =
    let fragments = read_le32 r 8 in
    let bytes = read_le16 r 12 in
    not (
      (not (byte r 1 == 1) && not (byte r 1 == 2))
      || fragments % 2 ^ 16 == 0
      || not (fragments / 2 ^ 16 == 0)
      || ltb bytes 16
      || ltb hid_payload_length bytes
      || (not (mem_eq r 18 cnys)
          && not (mem_eq r 18 ppa)
          && not (mem_eq r 18 rrim)
          && not (mem_eq r 18 gnip)))

unfoldable pub rewrite_report_session : List ℕ → ℕ → ℕ → List ℕ × Bool
rewrite_report_session r local_session remote_session =
    if carries_session r
    then (write_le16 (write_le16 r 22 local_session) 24 remote_session, true)
    else (r, false)
