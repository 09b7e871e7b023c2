-- ===== src/Actions/Session/Laws.antt =====
-- backends/actions-micro/actions_micro_backend.c: what the session flags mean after any exchange.
use usbdisplay_stack.Common.{
  ℕ, ◌≤◌, ◌≡◌, ◌≢◌, ◌↔◌, ◌⊎◌, true, false, Option, none, some, List, arith, Status, success,
  failure, estale,
}
use usbdisplay_stack.Actions.Session.{
  session_unknown, parse_message, consume_message, consume_sync_report, sync_sent, Session, Message,
}

-- A confirmed session is one in which each peer has named the other: the device has echoed the local
-- ID, and its own ID is known and was sent to it. A device whose ID was not sent yet has a reply
-- pending.
pub record IsConsistent (s : Session) : Type 0 where
  pub peer : s.session_confirmed ≡ true → s.peer_confirmed ≡ true
  pub acked : s.session_confirmed ≡ true → s.acked_remote_session ≡ s.remote_session
  pub known : s.session_confirmed ≡ true → s.remote_session ≢ session_unknown
  pub owed : s.acked_remote_session ≢ s.remote_session → s.sync_reply_pending ≡ true

pub consume_message-IsConsistent :
    (s : Session) (m : Message) → IsConsistent s → IsConsistent (consume_message s m).0
unfolding consume_message
consume_message-IsConsistent s m v = ground arith

pub consume_sync_report-IsConsistent :
    (s : Session) (r : List ℕ) (report_bytes : ℕ)
    → IsConsistent s
    → IsConsistent (consume_sync_report s r report_bytes).0
unfolding consume_sync_report
consume_sync_report-IsConsistent s r report_bytes v = go (parse_message r report_bytes)
  where
    go :
        (o : Option Message)
        → IsConsistent
            (let y : Session × Status = elim o [
              | none ↦ (s, success)
              | some m ↦ consume_message s m
            ] in
              y).0
    go none = v
    go (some m) = consume_message-IsConsistent s m v

pub sync_sent-IsConsistent : (s : Session) → IsConsistent s → IsConsistent (sync_sent s)
unfolding sync_sent
sync_sent-IsConsistent s v = ground arith

-- A confirmed session keeps its IDs whatever arrives, and the answer is ESTALE exactly on a whole SYNC
-- of a known peer that does not name the two IDs of the session.
pub consume_message_confirmed :
    (s : Session) (m : Message)
    → s.session_confirmed ≡ true
    → ((consume_message s m).0 ≡ s)
      × (((consume_message s m).1 ≡ failure estale) ↔ (
          (m.is_sync ≡ true)
          × (24 ≤ m.payload_bytes)
          × (m.remote_session ≢ session_unknown)
          × ((m.remote_session ≢ s.remote_session) ⊎ (m.echoed_session ≢ s.local_session))))
unfolding consume_message
consume_message_confirmed s m h = (ground arith, (λ e. ground arith, λ e. ground arith))

-- A session that is not confirmed never fails.
pub consume_message_unconfirmed :
    (s : Session) (m : Message) → s.session_confirmed ≡ false → (consume_message s m).1 ≡ success
unfolding consume_message
consume_message_unconfirmed s m h = ground arith

-- While the session is not confirmed: once a whole SYNC of a known device echoes the local ID, one SYNC
-- that goes out confirms the session with that device.
pub handshake :
    (s : Session) (m : Message)
    → s.session_confirmed ≡ false
    → m.is_sync ≡ true
    → 24 ≤ m.payload_bytes
    → m.remote_session ≢ session_unknown
    → m.echoed_session ≡ s.local_session
    → let s' = sync_sent (consume_message s m).0 in
      (s'.session_confirmed ≡ true)
      × (s'.remote_session ≡ m.remote_session)
      × (s'.local_session ≡ s.local_session)
unfolding consume_message sync_sent
handshake s m a b c d e = ground arith
