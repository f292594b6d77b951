-- ===== src/Ordered/Runs.antt =====
-- Sequences of calls on OrderedInterface, between a begin and a shutdown: commands of the
-- controller, posts of the native station and turns of the scheduler, in any order.
use roo_wifi.Base.{ℕ, ◌+◌, ◌≡◌, ◌≢◌, Bool, List, [], ◌∷◌, ◌==◌, if◌then◌else◌, arith}
use roo_wifi.Types.{Status, is_ok, ConnectionConfig, Credentials}
use roo_wifi.Ordered.Events.{Event}
use roo_wifi.Ordered.Station.{NativeStation, Adapter}
use roo_wifi.Ordered.Queue.{post}
use roo_wifi.Ordered.Machine.{drain}
use roo_wifi.Ordered.Commands.{
  set_enabled, start_scan, connect, disconnect, cancel_scan, cancel_connect,
}
use roo_wifi.Ordered.Tally.{
  is_active, delivered, tally, tally-set_enabled, tally-start_scan, tally-connect, tally-disconnect,
  tally-cancel_scan, tally-cancel_connect, tally-post, tally-drain,
}

pub data Call : Type 0 where
  enabling : ℕ → Bool → Call
  scanning : ℕ → ℕ → Call
  connecting : ℕ → ConnectionConfig → Credentials → Call
  disconnecting : ℕ → Call
  cancelling_scan cancelling_connect : Call
  posting : Event → Call
  draining : Call

-- The id of the operation that a call asks for, or 0.
abbrev pub asks : Call → ℕ
asks (Call.enabling id on) = id
asks (Call.scanning id capacity) = id
asks (Call.connecting id config secret) = id
asks (Call.disconnecting id) = id
asks _ = 0

module _ {n : NativeStation} where
  unfoldable pub perform_call : Call → Adapter n → Status × Adapter n
  perform_call (Call.enabling id on) s = set_enabled id on s
  perform_call (Call.scanning id capacity) s = start_scan id capacity s
  perform_call (Call.connecting id config secret) s = connect id config secret s
  perform_call (Call.disconnecting id) s = disconnect id s
  perform_call Call.cancelling_scan s = cancel_scan s
  perform_call Call.cancelling_connect s = cancel_connect s
  perform_call (Call.posting event) s = (Status.ok, post event s)
  perform_call Call.draining s = (Status.ok, drain s)

  unfoldable pub run : List Call → Adapter n → Adapter n
  run [] s = s
  run (c ∷ cs) s = run cs (perform_call c s).1

  -- How many of the calls asked for an operation with this id and returned kOk.
  unfoldable pub admissions : ℕ → List Call → Adapter n → ℕ
  admissions i [] s = 0
  admissions i (c ∷ cs) s =
      (if is_ok (perform_call c s).0 then (if asks c == i then 1 else 0) else 0)
      + admissions i cs (perform_call c s).1

  module _ (i : ℕ) (nonzero_id : i ≢ 0) where
    tally-perform_call :
        (c : Call) (s : Adapter n)
        → tally i (perform_call c s).1
          ≡ tally i s + (if is_ok (perform_call c s).0 then (if asks c == i then 1 else 0) else 0)
    unfolding perform_call
    tally-perform_call (Call.enabling id on) s = tally-set_enabled i nonzero_id id on s
    tally-perform_call (Call.scanning id capacity) s = tally-start_scan i nonzero_id id capacity s
    tally-perform_call (Call.connecting id config secret) s =
        tally-connect i nonzero_id id config secret s
    tally-perform_call (Call.disconnecting id) s = tally-disconnect i nonzero_id id s
    tally-perform_call Call.cancelling_scan s = ground (arith, tally-cancel_scan i nonzero_id s)
    tally-perform_call Call.cancelling_connect s =
        ground (arith, tally-cancel_connect i nonzero_id s)
    tally-perform_call (Call.posting event) s = ground (arith, tally-post i nonzero_id event s)
    tally-perform_call Call.draining s = ground (arith, tally-drain i nonzero_id s)

    tally-run :
        (cs : List Call) (s : Adapter n) → tally i (run cs s) ≡ tally i s + admissions i cs s
    unfolding run admissions
    tally-run [] s = omega arith
    tally-run (c ∷ cs) s = omega (arith, tally-perform_call c s, tally-run cs (perform_call c s).1)

  -- An admission with kOk promises one report, and nothing else makes one. Over any calls between
  -- begin and shutdown, the reports of an id, together with the one owed while the operation is
  -- active, are those before and one for each admission.
  pub reports_match-run :
      (i : ℕ) (cs : List Call) (s : Adapter n)
      → i ≢ 0
      → delivered i (run cs s).outputs
          + is_active i (run cs s).station
          + is_active i (run cs s).scan
        ≡ delivered i s.outputs + is_active i s.station + is_active i s.scan + admissions i cs s
  unfolding tally
  reports_match-run i cs s h = tally-run i h cs s
