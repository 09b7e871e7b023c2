-- ===== src/Actions/Wire/Laws.antt =====
-- backends/actions-micro/actions_micro_backend.c: fields that are written are read back, and nothing
-- else of a report changes.
use usbdisplay_stack.Common.{
  ℕ, ◌+◌, ◌*◌, ◌/◌, ◌%◌, ◌≤◌, ◌<◌, ◌≡◌, refl, sym, ◌∙◌, ◌≢◌, ◌↔◌, ◌⊎◌, inl, inr, true, false, List,
  arith, Bool-cases, u8, length, set, length-set, get_or-set_self, get_or-set_ne, bit_or_apart,
}
use usbdisplay_stack.Actions.Wire.{
  byte, read_le16, read_le32, write_le16, write_le32, mem_eq, cnys, ppa, rrim, gnip,
  carries_session, rewrite_report_session,
}

-- A byte that a two-byte write does not touch.
pub byte-write_le16 :
    (d : List ℕ) (o v i : ℕ) → (i < o) ⊎ (o + 2 ≤ i) → byte (write_le16 d o v) i ≡ byte d i
unfolding write_le16
byte-write_le16 d o v i h =
    get_or-set_ne (set d o (u8 v)) (o + 1) i _ 0 (ne h) ∙ get_or-set_ne d o i _ 0 (ne' h)
  where
    ne : (i < o) ⊎ (o + 2 ≤ i) → o + 1 ≢ i
    ne p = omega arith

    ne' : (i < o) ⊎ (o + 2 ≤ i) → o ≢ i
    ne' p = omega arith

pub length-write_le16 : (d : List ℕ) (o v : ℕ) → length (write_le16 d o v) ≡ length d
unfolding write_le16
length-write_le16 d o v = length-set (set d o (u8 v)) (o + 1) _ ∙ length-set d o _

-- The two bytes of a field that lies in the buffer.
write_le16_bytes :
    (d : List ℕ) (o v : ℕ)
    → o + 2 ≤ length d
    → (byte (write_le16 d o v) o ≡ u8 v) × (byte (write_le16 d o v) (o + 1) ≡ u8 (v / 256))
unfolding write_le16
write_le16_bytes d o v h = (
  get_or-set_ne (set d o (u8 v)) (o + 1) o _ 0 (omega arith)
      ∙ get_or-set_self d o (u8 v) 0 (omega arith),
  get_or-set_self (set d o (u8 v)) (o + 1) _ 0 (omega (arith, length-set d o (u8 v))),
)

-- A 16-bit value that is written to a place in the buffer is read back.
pub read_le16-write_le16 :
    (d : List ℕ) (o v : ℕ) → o + 2 ≤ length d → v < 65536 → read_le16 (write_le16 d o v) o ≡ v
unfolding read_le16
read_le16-write_le16 d o v h small =
    let (low, high) = write_le16_bytes d o v h in
    rw (low, high) (bit_or_apart 8 (u8 v) (u8 (v / 256)) (omega arith) ∙ omega arith)

pub read_le16-write_le16_apart :
    (d : List ℕ) (o v i : ℕ)
    → (i + 2 ≤ o) ⊎ (o + 2 ≤ i)
    → read_le16 (write_le16 d o v) i ≡ read_le16 d i
unfolding read_le16
read_le16-write_le16_apart d o v i h =
    rw (byte-write_le16 d o v i (omega arith), byte-write_le16 d o v (i + 1) (omega arith))

write_le32_bytes :
    (d : List ℕ) (o v : ℕ)
    → o + 4 ≤ length d
    → let w = write_le32 d o v in
      (byte w o ≡ u8 v)
      × (byte w (o + 1) ≡ u8 (v / 256))
      × (byte w (o + 2) ≡ u8 (v / 65536))
      × (byte w (o + 3) ≡ u8 (v / 16777216))
unfolding write_le32
write_le32_bytes d o v h = (
  ne3 o (omega arith) ∙ ne2 o (omega arith) ∙ ne1 o (omega arith) ∙ self1,
  ne3 (o + 1) (omega arith) ∙ ne2 (o + 1) (omega arith) ∙ self2,
  ne3 (o + 2) (omega arith) ∙ self3,
  get_or-set_self w3 (o + 3) _ 0 (omega (arith, l1, l2, l3)),
)
  where
    w1 : List ℕ
    w1 = set d o (u8 v)

    w2 : List ℕ
    w2 = set w1 (o + 1) (u8 (v / 256))

    w3 : List ℕ
    w3 = set w2 (o + 2) (u8 (v / 65536))

    l1 : length w1 ≡ length d
    l1 = length-set d o _

    l2 : length w2 ≡ length w1
    l2 = length-set w1 (o + 1) _

    l3 : length w3 ≡ length w2
    l3 = length-set w2 (o + 2) _

    ne1 : (i : ℕ) → o + 1 ≢ i → byte w2 i ≡ byte w1 i
    ne1 i h = get_or-set_ne w1 (o + 1) i _ 0 h

    ne2 : (i : ℕ) → o + 2 ≢ i → byte w3 i ≡ byte w2 i
    ne2 i h = get_or-set_ne w2 (o + 2) i _ 0 h

    ne3 : (i : ℕ) → o + 3 ≢ i → byte (set w3 (o + 3) (u8 (v / 16777216))) i ≡ byte w3 i
    ne3 i h = get_or-set_ne w3 (o + 3) i _ 0 h

    self1 : byte w1 o ≡ u8 v
    self1 = get_or-set_self d o _ 0 (omega arith)

    self2 : byte w2 (o + 1) ≡ u8 (v / 256)
    self2 = get_or-set_self w1 (o + 1) _ 0 (omega (arith, l1))

    self3 : byte w3 (o + 2) ≡ u8 (v / 65536)
    self3 = get_or-set_self w2 (o + 2) _ 0 (omega (arith, l1, l2))

-- A 32-bit value that is written to a place in the buffer is read back.
pub read_le32-write_le32 :
    (d : List ℕ) (o v : ℕ) → o + 4 ≤ length d → v < 4294967296 → read_le32 (write_le32 d o v) o ≡ v
unfolding read_le32
read_le32-write_le32 d o v h small =
    let (b0, b1, b2, b3) = write_le32_bytes d o v h in
    rw (b0, b1, b2, b3)
      (rw (bit_or_apart 8 (u8 v) (u8 (v / 256)) (omega arith)) (
        rw (bit_or_apart 16 (u8 v + u8 (v / 256) * 256) (u8 (v / 65536)) (omega arith)) (
          bit_or_apart 24 (u8 v + u8 (v / 256) * 256 + u8 (v / 65536) * 65536) (u8 (v / 16777216))
            (omega arith)
          ∙ omega arith)))

pub length-write_le32 : (d : List ℕ) (o v : ℕ) → length (write_le32 d o v) ≡ length d
unfolding write_le32
length-write_le32 d o v =
    length-set _ (o + 3) _ ∙ length-set _ (o + 2) _ ∙ length-set _ (o + 1) _ ∙ length-set d o _

-- A byte that a four-byte write does not touch.
pub byte-write_le32 :
    (d : List ℕ) (o v i : ℕ) → (i < o) ⊎ (o + 4 ≤ i) → byte (write_le32 d o v) i ≡ byte d i
unfolding write_le32
byte-write_le32 d o v i h =
    get_or-set_ne _ (o + 3) i _ 0 (ne 3 (omega arith) h)
    ∙ get_or-set_ne _ (o + 2) i _ 0 (ne 2 (omega arith) h)
    ∙ get_or-set_ne _ (o + 1) i _ 0 (ne 1 (omega arith) h)
    ∙ get_or-set_ne d o i _ 0 (ne' h)
  where
    ne : (k : ℕ) → k < 4 → (i < o) ⊎ (o + 4 ≤ i) → o + k ≢ i
    ne k l p = omega arith

    ne' : (i < o) ⊎ (o + 4 ≤ i) → o ≢ i
    ne' p = omega arith

-- The first fragment of a message with a session: a command or a video report, of a message of one
-- fragment or more, with index 0, a payload between the header of a message and the room of a report,
-- and one of the four tags _PPA, CNYS, RRIM and GNIP.
pub record IsFirstFragment (r : List ℕ) : Type 0 where
  pub kind : (byte r 1 ≡ 1) ⊎ (byte r 1 ≡ 2)
  pub counted : read_le32 r 8 % 65536 ≢ 0
  pub first : read_le32 r 8 / 65536 ≡ 0
  pub header_fits : 16 ≤ read_le16 r 12
  pub payload_fits : read_le16 r 12 ≤ 4082
  pub tagged :
      (mem_eq r 18 cnys ≡ true)
      ⊎ (mem_eq r 18 ppa ≡ true)
      ⊎ (mem_eq r 18 rrim ≡ true)
      ⊎ (mem_eq r 18 gnip ≡ true)

carries_session-first : (r : List ℕ) → carries_session r ≡ true → IsFirstFragment r
unfolding carries_session
carries_session-first r h = record {
  kind = ground (arith, h);
  counted = ground (arith, h);
  first = ground (arith, h);
  header_fits = ground (arith, h);
  payload_fits = ground (arith, h);
  tagged = ground (arith, h);
}

first-carries_session : (r : List ℕ) → IsFirstFragment r → carries_session r ≡ true
unfolding carries_session
first-carries_session r v = ground (arith, v)

-- A report of 4096 bytes keeps its length and, with session IDs of 16 bits, every byte but those of the
-- two session IDs. The call says that it has rewritten the report exactly when this is the first
-- fragment of a message; then the IDs read back as those of the session, and every other report is as
-- it was.
pub rewrite_report_session_lem :
    (r : List ℕ) (local_session remote_session i : ℕ)
    → length r ≡ 4096
    → local_session < 65536
    → remote_session < 65536
    → (i < 22) ⊎ (26 ≤ i)
    → let (r', rewritten) = rewrite_report_session r local_session remote_session in
      (length r' ≡ 4096)
      × ((rewritten ≡ true) ↔ IsFirstFragment r)
      × (byte r' i ≡ byte r i)
      × ((rewritten ≡ false) × (r' ≡ r)
          ⊎ (rewritten ≡ true)
            × (read_le16 r' 22 ≡ local_session)
            × (read_le16 r' 24 ≡ remote_session))
unfolding rewrite_report_session
rewrite_report_session_lem r local_session remote_session i long l m outside =
    elim (Bool-cases (carries_session r)) [
      | inl e ↦ rw e (
        length-write_le16 _ 24 remote_session ∙ length-write_le16 r 22 local_session ∙ long,
        (λ x. carries_session-first r e, λ x. refl),
        byte-write_le16 _ 24 remote_session i (omega arith)
            ∙ byte-write_le16 r 22 local_session i (omega arith),
        inr (
          refl,
          read_le16-write_le16_apart _ 24 remote_session 22 (inl (omega arith))
              ∙ read_le16-write_le16 r 22 local_session (omega (arith, long)) l,
          read_le16-write_le16 _ 24 remote_session
              (omega (arith, long, length-write_le16 r 22 local_session)) m,
        ),
      )
      | inr e ↦ rw e (
        long,
        (λ x. absurd (ground (arith, x)), λ v. sym e ∙ first-carries_session r v),
        refl,
        inl (refl, refl),
      )
    ]
