-- ===== src/Ordered/Turns.antt =====
-- What a turn of the scheduler does to the queue.
use roo_wifi.Base.{ℕ, zero, suc, ◌+◌, ◌-◌, ◌<◌, ◌≡◌, refl, Bool, true, false, arith, pos, ℤ}
use roo_wifi.Types.{Status, ConnectionFailure}
use roo_wifi.Ordered.Events.{EventKind, Event}
use roo_wifi.Ordered.Station.{NativeStation, Adapter}
use roo_wifi.Ordered.Queue.{front, advance}
use roo_wifi.Ordered.Machine.{
  finish_station, finish_scan, command_failed, start_connection, set_radio, process_enabled,
  process_prepared, process_associated, process_address, process_lost, process_disconnected,
  dispatch, process, fault, resume_connection, drain_loop, drain,
}

-- What the scheduler side leaves to posts.
abbrev SameQueue : {n : NativeStation} → Adapter n → Adapter n → Type 0
SameQueue t s = (t.count ≡ s.count) × (t.overflow ≡ s.overflow)

suc_plus : (a b : ℕ) → suc a + b ≡ suc (a + b)
suc_plus a b = omega arith

module _ {n : NativeStation} where
  finish_station_queue :
      (r : Status) (c : ℤ) (f : ConnectionFailure) (s : Adapter n)
      → SameQueue (finish_station r c f s) s
  unfolding finish_station
  finish_station_queue r c f s = ground arith

  finish_scan_queue : (r : Status) (c : ℤ) (s : Adapter n) → SameQueue (finish_scan r c s) s
  unfolding finish_scan
  finish_scan_queue r c s = ground arith

  start_connection_queue : (s : Adapter n) → SameQueue (start_connection s) s
  unfolding start_connection command_failed finish_station
  start_connection_queue s = ground arith

  set_radio_queue : (on : Bool) (s : Adapter n) → SameQueue (set_radio on s) s
  unfolding set_radio
  set_radio_queue on s = ground arith

  dispatch_queue : (k : EventKind) (e : Event) (s : Adapter n) → SameQueue (dispatch k e s) s
  unfolding dispatch process_enabled process_prepared process_associated process_address
      process_lost process_disconnected command_failed finish_station
  dispatch_queue EventKind.enabled e s = ground (arith, set_radio_queue true s)
  dispatch_queue EventKind.disabled e s = ground (arith, set_radio_queue false s)
  dispatch_queue EventKind.prepared e s = ground arith
  dispatch_queue EventKind.scan_done e s = finish_scan_queue e.status e.native_code s
  dispatch_queue EventKind.associated e s = ground arith
  dispatch_queue EventKind.address_ready e s = ground arith
  dispatch_queue EventKind.address_lost e s = ground arith
  dispatch_queue EventKind.disconnected e s = ground arith

  process_queue : (e : Event) (s : Adapter n) → SameQueue (process e s) s
  unfolding process
  process_queue e s = ground (arith, dispatch_queue e.kind e s)

  resume_connection_queue : (s : Adapter n) → SameQueue (resume_connection s) s
  unfolding resume_connection
  resume_connection_queue s = ground (
    arith,
    finish_station_queue Status.cancelled (pos 0) ConnectionFailure.none s,
    start_connection_queue s,
  )

  fault_queue : (s : Adapter n) → ((fault s).count ≡ 0) × ((fault s).overflow ≡ s.overflow)
  unfolding fault
  fault_queue s =
      let s1 = record s { count = 0; faulted = true } in
      let s2 = finish_station Status.connection_failed (pos 0) ConnectionFailure.none s1 in
      ground (
        arith,
        finish_scan_queue Status.connection_failed (pos 0) s2,
        finish_station_queue Status.connection_failed (pos 0) ConnectionFailure.none s1,
      )

  advance_queue :
      (s : Adapter n) → ((advance s).count ≡ s.count - 1) × ((advance s).overflow ≡ s.overflow)
  unfolding advance
  advance_queue s = (refl, refl)

  -- With enough fuel the loop ends with an empty queue, and more fuel changes nothing.
  drain_loop_ends :
      (fuel more : ℕ) (s : Adapter n)
      → s.count < fuel
      → ((drain_loop fuel s).count ≡ 0) × (drain_loop (fuel + more) s ≡ drain_loop fuel s)
  unfolding drain_loop
  drain_loop_ends zero more s h = absurd (omega arith)
  drain_loop_ends (suc fuel) more s h =
      rw (suc_plus fuel more, drain_loop)
        (ground (
          arith,
          fault_queue s,
          resume_connection_queue s,
          drain_loop_ends fuel more (process (front s) (advance s)),
          process_queue (front s) (advance s),
          advance_queue s,
        ))

  -- A turn of the scheduler takes every event off the queue, in at most one round for each event and
  -- one more: the fuel of the loop is enough, and any more gives the same result.
  pub drain_ends :
      (more : ℕ) (s : Adapter n)
      → s.has_sink ≡ true
      → ((drain s).count ≡ 0)
        × (drain_loop (s.count + 1 + more) (record s { scheduled = false }) ≡ drain s)
  unfolding drain
  drain_ends more s h =
      ground (arith, drain_loop_ends (s.count + 1) more (record s { scheduled = false }))
