-- ===== src/Actions/Session.antt =====
-- backends/actions-micro/actions_micro_backend.c: the session IDs of the two peers, and how a report
-- from the device changes them (consume_sync_report).
pub mod Laws
use usbdisplay_stack.Common.{
  ℕ, ◌+◌, ◌-◌, Bool, true, false, not, ◌&&◌, ◌||◌, Option, none, some, List, ltb, ◌==◌,
  if◌then◌else◌, Status, success, failure, estale,
}
use usbdisplay_stack.Actions.Wire.{
  hid_header_length, byte, read_le16, read_le32, mem_eq, cnys, ppa, rrim, gnip,
}

-- SESSION_UNKNOWN
abbrev pub session_unknown : ℕ
session_unknown = 65535

-- The fields of struct actions_context that the negotiation works on.
pub record Session : Type 0 where
  pub local_session : ℕ
  pub remote_session : ℕ
  pub acked_remote_session : ℕ
  pub peer_confirmed : Bool
  pub session_confirmed : Bool
  pub sync_reply_pending : Bool

-- What consume_sync_report reads from a report before it looks at the session.
pub record Message : Type 0 where
  pub payload_bytes : ℕ
  pub remote_session : ℕ
  pub echoed_session : ℕ
  pub is_sync : Bool
  pub is_request : Bool

-- The early returns on a report that holds no whole message, and the fields of one that does.
unfoldable pub parse_message : List ℕ → ℕ → Option Message
parse_message r report_bytes =
    let payload_bytes = read_le16 r 12 in
    if ltb report_bytes (hid_header_length + 16) || not (byte r 1 == 1) || not (read_le32 r 8 == 1)
    then none
    else if ltb payload_bytes 16
        || ltb (report_bytes - hid_header_length) payload_bytes
        || not (read_le32 r 14 == payload_bytes)
        || not (read_le32 r 26 == 3)
    then none
    else some (record {
      payload_bytes = payload_bytes;
      remote_session = read_le16 r 22;
      echoed_session = read_le16 r 24;
      is_sync = mem_eq r 18 cnys;
      is_request = mem_eq r 18 rrim || mem_eq r 18 ppa || mem_eq r 18 gnip;
    })

-- A message that is no SYNC can acknowledge the SYNC that was sent.
unfoldable pub acknowledges : Session → Message → Bool
acknowledges s m =
    not s.session_confirmed
    && not (m.remote_session == session_unknown)
    && m.remote_session == s.remote_session
    && s.acked_remote_session == m.remote_session
    && m.echoed_session == s.local_session
    && m.is_request

-- The end of the function: a SYNC while the session is not confirmed.
unfoldable pub renegotiate : Session → Message → Session
renegotiate s m =
    let changed = not (s.remote_session == m.remote_session) in
    let acked = if changed then session_unknown else s.acked_remote_session in
    let peer = m.echoed_session == s.local_session in
    record s {
      remote_session = m.remote_session;
      acked_remote_session = acked;
      peer_confirmed = peer;
      sync_reply_pending = s.sync_reply_pending || changed || not peer;
      session_confirmed = peer && acked == m.remote_session;
    }

unfoldable pub consume_message : Session → Message → Session × Status
unfolding acknowledges renegotiate
consume_message s m =
    if not m.is_sync
    then (
      if acknowledges s m then record s { peer_confirmed = true; session_confirmed = true } else s,
      success,
    )
    else if ltb m.payload_bytes 24
    then (s, success)
    else if m.remote_session == session_unknown
    then (s, success)
    else if s.session_confirmed
    then (
      s,
      if not (m.remote_session == s.remote_session) || not (m.echoed_session == s.local_session)
          then failure estale
          else success,
    )
    else (renegotiate s m, success)

unfoldable pub consume_sync_report : Session → List ℕ → ℕ → Session × Status
consume_sync_report s r report_bytes = elim (parse_message r report_bytes) [
  | none ↦ (s, success)
  | some m ↦ consume_message s m
]

-- What send_sync_report does to the session once its report is written.
unfoldable pub sync_sent : Session → Session
sync_sent s = record s {
  acked_remote_session = s.remote_session;
  sync_reply_pending = false;
  session_confirmed = s.peer_confirmed && not (s.remote_session == session_unknown);
}
