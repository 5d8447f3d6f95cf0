-- ===== src/Daemon/Session/Receipts.antt =====
-- What the receipt counter of a session counts.
use pulse_narrator.Prelude.{ℕ, ◌+◌, Option, none, some, List, [], ◌∷◌, str_eq, if◌then◌else◌}
use pulse_narrator.Core.Event.{SessionId}
use pulse_narrator.Daemon.Session.{
  DedupVerdict, new, duplicate, SessionState, SessionManager, get, record_dedup,
}
use pulse_narrator.Daemon.Session.History.{Delivery}
use mathlib.Core.Option

-- The receipts of a session, none if it is not tracked.
abbrev pub receipts_of : Option SessionState → ℕ
receipts_of none = 0
receipts_of (some state) = state.receipt_seq

abbrev pub receipts : SessionId → SessionManager → ℕ
receipts sid mgr = receipts_of (get sid mgr)

abbrev pub one_if_new : DedupVerdict → ℕ
one_if_new new = 1
one_if_new duplicate = 0

-- The deliveries of a session that the manager finds new.
abbrev pub new_deliveries : SessionId → List Delivery → SessionManager → ℕ
new_deliveries sid [] mgr = 0
new_deliveries sid (d ∷ ds) mgr =
    let (verdict, mgr') = record_dedup d.session_id d.event_id d.transcript_path mgr in
    (if str_eq d.session_id.as_str sid.as_str then one_if_new verdict else 0)
    + new_deliveries sid ds mgr'
