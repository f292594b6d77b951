-- ===== src/Ordered/Tally.antt =====
-- How many times an operation is reported, over the commands and the events of OrderedInterface.
use roo_wifi.Base.{
  ℕ, zero, suc, ◌+◌, ◌≡◌, refl, ◌∙◌, ◌≢◌, Bool, true, false, List, [], ◌∷◌, ◌==◌, if◌then◌else◌,
  arith, pos, ℤ,
}
use roo_wifi.Types.{
  Status, is_ok, is_not_found, OperationKind, OperationResult, ConnectionFailure, ConnectionConfig,
  Credentials,
}
use roo_wifi.Ordered.Events.{EventKind, Event}
use roo_wifi.Ordered.Station.{NativeStation, Adapter, Output}
use roo_wifi.Ordered.Queue.{post, front, advance}
use roo_wifi.Ordered.Machine.{
  finish_station, finish_scan, command_failed, start_connection, set_radio, process_enabled,
  process_prepared, process_associated, process_address, process_lost, process_disconnected,
  dispatch, process, fault, resume_connection, drain_loop, drain,
}
use roo_wifi.Ordered.Commands.{
  set_enabled, start_scan, admit_connect, admit_disconnect, disconnected_event, operation, connect,
  disconnect, cancel_scan, cancel_connect, station_admission,
}

-- One where the operation has the id.
abbrev pub is_active : ℕ → OperationResult → ℕ
is_active i r = if r.id == i then 1 else 0

-- How often the sink has heard of the id.
unfoldable pub delivered : ℕ → List Output → ℕ
delivered i [] = 0
delivered i (Output.finished r ∷ os) = is_active i r + delivered i os
delivered i (Output.link_changed l ∷ os) = delivered i os
delivered i (Output.enabled_changed e ∷ os) = delivered i os

-- The reports of the id, made and still owed.
unfoldable pub tally : {n : NativeStation} → ℕ → Adapter n → ℕ
tally i s = delivered i s.outputs + is_active i s.station + is_active i s.scan

module _ {n : NativeStation} (i : ℕ) (nonzero_id : i ≢ 0) where
  tally-finish_station :
      (e : Status) (c : ℤ) (f : ConnectionFailure) (s : Adapter n)
      → tally i (finish_station e c f s) ≡ tally i s
  unfolding tally finish_station delivered
  tally-finish_station e c f s = ground arith

  tally-finish_scan : (e : Status) (c : ℤ) (s : Adapter n) → tally i (finish_scan e c s) ≡ tally i s
  unfolding tally finish_scan delivered
  tally-finish_scan e c s = ground arith

  tally-command_failed : (e : Status) (s : Adapter n) → tally i (command_failed e s) ≡ tally i s
  unfolding command_failed
  tally-command_failed e s = tally-finish_station e _ _ _ ∙ (unfold tally delivered in refl)

  tally-start_connection : (s : Adapter n) → tally i (start_connection s) ≡ tally i s
  unfolding start_connection command_failed finish_station tally delivered
  tally-start_connection s = ground arith

  tally-set_radio : (on : Bool) (s : Adapter n) → tally i (set_radio on s) ≡ tally i s
  unfolding set_radio tally delivered
  tally-set_radio on s = ground arith

  tally-process_enabled :
      (on : Bool) (e : Event) (s : Adapter n) → tally i (process_enabled on e s) ≡ tally i s
  unfolding process_enabled
  tally-process_enabled on e s = ground (
    arith,
    tally-finish_station e.status e.native_code ConnectionFailure.none (set_radio on s),
    tally-set_radio on s,
  )

  tally-process_prepared : (s : Adapter n) → tally i (process_prepared s) ≡ tally i s
  unfolding process_prepared command_failed finish_station tally delivered
  tally-process_prepared s = ground arith

  tally-process_associated :
      (e : Event) (s : Adapter n) → tally i (process_associated e s) ≡ tally i s
  unfolding process_associated tally delivered
  tally-process_associated e s = ground arith

  tally-process_address : (e : Event) (s : Adapter n) → tally i (process_address e s) ≡ tally i s
  unfolding process_address finish_station tally delivered
  tally-process_address e s = ground arith

  tally-process_lost : (s : Adapter n) → tally i (process_lost s) ≡ tally i s
  unfolding process_lost tally delivered
  tally-process_lost s = ground arith

  tally-process_disconnected :
      (e : Event) (s : Adapter n) → tally i (process_disconnected e s) ≡ tally i s
  unfolding process_disconnected finish_station tally delivered
  tally-process_disconnected e s = ground arith

  pub tally-post : (e : Event) (s : Adapter n) → tally i (post e s) ≡ tally i s
  unfolding post tally
  tally-post e s = ground arith

  tally-dispatch :
      (k : EventKind) (e : Event) (s : Adapter n) → tally i (dispatch k e s) ≡ tally i s
  unfolding dispatch
  tally-dispatch EventKind.enabled e s = tally-process_enabled true e s
  tally-dispatch EventKind.disabled e s = tally-process_enabled false e s
  tally-dispatch EventKind.prepared e s = tally-process_prepared s
  tally-dispatch EventKind.scan_done e s = tally-finish_scan e.status e.native_code s
  tally-dispatch EventKind.associated e s = tally-process_associated e s
  tally-dispatch EventKind.address_ready e s = tally-process_address e s
  tally-dispatch EventKind.address_lost e s = tally-process_lost s
  tally-dispatch EventKind.disconnected e s = tally-process_disconnected e s

  tally-process : (e : Event) (s : Adapter n) → tally i (process e s) ≡ tally i s
  unfolding process
  tally-process e s = ground (arith, tally-dispatch e.kind e s)

  tally-advance : (s : Adapter n) → tally i (advance s) ≡ tally i s
  unfolding advance tally
  tally-advance s = refl

  tally-fault : (s : Adapter n) → tally i (fault s) ≡ tally i s
  unfolding fault
  tally-fault s = tally-finish_scan _ _ _ ∙ tally-finish_station _ _ _ _ ∙ (unfold tally in refl)

  tally-resume_connection : (s : Adapter n) → tally i (resume_connection s) ≡ tally i s
  unfolding resume_connection
  tally-resume_connection s = ground (
    arith,
    tally-finish_station Status.cancelled (pos 0) ConnectionFailure.none s,
    tally-start_connection s,
  )

  tally-drain_loop : (fuel : ℕ) (s : Adapter n) → tally i (drain_loop fuel s) ≡ tally i s
  unfolding drain_loop
  tally-drain_loop zero s = refl
  tally-drain_loop (suc fuel) s = ground (
    arith,
    tally-fault s,
    tally-resume_connection s,
    tally-drain_loop fuel (process (front s) (advance s)),
    tally-process (front s) (advance s),
    tally-advance s,
  )

  -- Draining the queue neither loses nor doubles a report: each operation that it takes off the
  -- adapter is reported to the sink once.
  pub tally-drain : (s : Adapter n) → tally i (drain s) ≡ tally i s
  unfolding drain tally
  tally-drain s = ground (arith, tally-drain_loop (s.count + 1) (record s { scheduled = false }))

  -- What a command that takes an id adds: one report owed where it is admitted.
  abbrev owed : ℕ → Status × Adapter n → ℕ
  owed id r = if is_ok r.0 then (if id == i then 1 else 0) else 0

  pub tally-set_enabled :
      (id : ℕ) (on : Bool) (s : Adapter n)
      → tally i (set_enabled id on s).1 ≡ tally i s + owed id (set_enabled id on s)
  unfolding set_enabled station_admission tally is_ok
  tally-set_enabled id on s = ground arith

  pub tally-start_scan :
      (id capacity : ℕ) (s : Adapter n)
      → tally i (start_scan id capacity s).1 ≡ tally i s + owed id (start_scan id capacity s)
  unfolding start_scan station_admission tally is_ok
  tally-start_scan id capacity s = ground arith

  tally-admit_connect :
      (id : ℕ) (config : ConnectionConfig) (secret : Credentials) (s : Adapter n)
      → s.station.id ≡ 0
      → tally i (admit_connect id config secret s).1
        ≡ tally i s + owed id (admit_connect id config secret s)
  unfolding admit_connect post tally is_ok is_not_found
  tally-admit_connect id config secret s free = ground arith

  free_station : (id : ℕ) (s : Adapter n) → is_ok (station_admission id s) ≡ true → s.station.id ≡ 0
  unfolding station_admission is_ok
  free_station id s h = ground arith

  pub tally-connect :
      (id : ℕ) (config : ConnectionConfig) (secret : Credentials) (s : Adapter n)
      → tally i (connect id config secret s).1 ≡ tally i s + owed id (connect id config secret s)
  unfolding connect is_ok
  tally-connect id config secret s =
      ground (arith, tally-admit_connect id config secret s, free_station id s, tally i s)

  tally-admit_disconnect :
      (id : ℕ) (s : Adapter n)
      → s.station.id ≡ 0
      → tally i (admit_disconnect id s).1 ≡ tally i s + owed id (admit_disconnect id s)
  unfolding admit_disconnect tally is_ok is_not_found
  tally-admit_disconnect id s free = ground (
    arith,
    tally-post (disconnected_event s.link)
        (record s { station = operation id OperationKind.disconnect; waiting_disconnect = true }),
    tally-post (disconnected_event s.link) (record s {
      station = operation id OperationKind.disconnect;
      waiting_disconnect = true;
      native = (n.disconnect s.native).1;
    }),
  )

  pub tally-disconnect :
      (id : ℕ) (s : Adapter n) → tally i (disconnect id s).1 ≡ tally i s + owed id (disconnect id s)
  unfolding disconnect
  tally-disconnect id s = ground (arith, tally-admit_disconnect id s, free_station id s)

  pub tally-cancel_scan : (s : Adapter n) → tally i (cancel_scan s).1 ≡ tally i s
  unfolding cancel_scan tally
  tally-cancel_scan s = ground arith

  pub tally-cancel_connect : (s : Adapter n) → tally i (cancel_connect s).1 ≡ tally i s
  unfolding cancel_connect post tally
  tally-cancel_connect s = ground arith
