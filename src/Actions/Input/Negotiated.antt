-- ===== src/Actions/Input/Negotiated.antt =====
-- backends/actions-micro/actions_micro_backend.c: what negotiate_session achieves.
use usbdisplay_stack.Common.{
  ℕ, zero, suc, ◌+◌, ◌≤◌, ◌≡◌, ◌⊎◌, true, List, [], ◌∷◌, Errno, Status, failure, length,
}
use usbdisplay_stack.Actions.Input.{SyncRound, Negotiation}
use usbdisplay_stack.Actions.Session.{Session}
use usbdisplay_stack.Actions.Session.Laws.{IsConsistent}
use usbdisplay_stack.Actions.Transport.{Transport}

-- What a part of the negotiation leaves: consistent flags, the local ID, and at most one report more
-- than SYNCs were counted.
record IsNegotiating (g : Negotiation) (out : Negotiation) : Type 0 where
  consistent : IsConsistent out.link.session
  same_local : out.link.session.local_session ≡ g.link.session.local_session
  few : out.sends ≤ 12
  counted : length out.transport.sent + g.sends ≤ length g.transport.sent + out.sends

-- The attempts are used up, or one of their rounds has shown the clock at the deadline. A script that
-- ends before shows it as well.
abbrev pub Spent : ℕ → ℕ → List SyncRound → Type 0
Spent zero deadline rounds = Unit {0}
Spent (suc attempts) deadline [] = Unit {0}
Spent (suc attempts) deadline (r ∷ rounds) = (deadline ≤ r.now_ns) ⊎ Spent attempts deadline rounds

-- How the loop ends: by a failure, with a confirmed session, or because nothing is left to try.
abbrev Ended : ℕ → ℕ → List SyncRound → Negotiation × Status → Type 0
Ended attempts deadline rounds (g, result) =
    ((e : Errno) × (result ≡ failure e))
    ⊎ (g.link.session.session_confirmed ≡ true)
    ⊎ Spent attempts deadline rounds
