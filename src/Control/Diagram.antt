-- ===== src/Control/Diagram.antt =====
-- The diagram of the controller: what its requests, events and tasks may do to the transition, the
-- scan and the ids of native operations.
use roo_wifi.Base.{ℕ, ◌+◌, ◌%◌, ◌^◌, ◌≤◌, ◌<◌, ◌≡◌, ◌≢◌, ◌⊎◌, Bool, true, false, arith}
use roo_wifi.Types.{
  Ssid, ConnectionConfig, Credentials, CredentialUpdate, ProfileSettings, OperationKind, kind_eq,
  OperationResult, LinkState,
}
use roo_wifi.Control.Interfaces.{Interface, Store}
use roo_wifi.Control.State.{ScanPhase, Transition, Controller}
use roo_wifi.Control.Requests.{max_id}
use roo_wifi.Control.Events.{expected_kind}

-- The requests, events and tasks of the controller.
pub data Step : Type 0 where
  begins shuts_down : Step
  enables : Bool → Step
  connects : ConnectionConfig → Credentials → Step
  connects_profile : Ssid → Step
  disconnects scans cancels_scan : Step
  saves : ProfileSettings → CredentialUpdate → Step
  removes : Ssid → Step
  finishes : OperationResult → Step
  switches : Bool → Step
  links : LinkState → Step
  executes retries times_out : Step
  -- The clock moves on.
  waits : ℕ → Step

-- The part of the controller that the diagram speaks of.
pub record Progress : Type 0 where
  pub running : Bool
  pub closed : Bool
  pub faulted : Bool
  pub transition : Transition
  pub cancelling : Bool
  pub station_id : ℕ
  pub scan_id : ℕ
  pub next_id : ℕ
  pub scan : ScanPhase

unfoldable pub view : {r : Interface} {t : Store} → Controller r t → Progress
view c = record {
  running = c.running;
  closed = c.closed;
  faulted = c.faulted;
  transition = c.transition;
  cancelling = c.cancelling_connect;
  station_id = c.station_id;
  scan_id = c.scan_id;
  next_id = c.next_id;
  scan = c.state.scan;
}

abbrev pub launched : Transition → Progress → Progress
launched t p = record p {
  transition = t;
  station_id = p.next_id;
  next_id = (p.next_id + 1) % 2 ^ 64;
}

abbrev pub retired : Progress → Progress
retired p = record p { station_id = 0; transition = Transition.none; cancelling = false }

abbrev pub scanning : Progress → Progress
scanning p = record p {
  scan_id = p.next_id;
  next_id = (p.next_id + 1) % 2 ^ 64;
  scan = ScanPhase.running;
}

abbrev pub scanned : Progress → Progress
scanned p = record p { scan_id = 0; scan = ScanPhase.idle }

abbrev pub failed : Progress → Progress
failed p = record p {
  faulted = true;
  station_id = 0;
  scan_id = 0;
  transition = Transition.none;
  scan = ScanPhase.idle;
}

abbrev pub shut : Progress → Progress
shut p = record p {
  running = false;
  closed = true;
  station_id = 0;
  scan_id = 0;
  transition = Transition.none;
  scan = ScanPhase.idle;
}

-- A controller that accepts work.
pub record IsLive (p : Progress) : Type 0 where
  pub running : p.running ≡ true
  pub sound : p.faulted ≡ false

pub record MayLaunch (t : Transition) (p : Progress) : Type 0 where
  pub real : t ≢ Transition.none
  pub live : IsLive p
  pub free : p.transition ≡ Transition.none
  pub room : p.next_id ≢ max_id

pub record MayScan (p : Progress) : Type 0 where
  pub live : IsLive p
  pub free : p.transition ≡ Transition.none
  pub queued : p.scan ≡ ScanPhase.queued
  pub room : p.next_id ≢ max_id

-- The tasks that act on the native station.
pub data IsTask : Step → Type 0 where
  executes : IsTask Step.executes
  times_out : IsTask Step.times_out

-- What a step may do.
pub data Move : Step → Progress → Progress → Type 0 where
  start :
      {p : Progress}
      → p.running ≡ false
      → p.closed ≡ false
      → Move Step.begins p (record p { running = true })
  close : {p : Progress} → p.closed ≡ false → Move Step.shuts_down p (shut p)
  -- A native transition begins when none is active, under an id of its own.
  launch : {p : Progress} (t : Transition) → MayLaunch t p → Move Step.executes p (launched t p)
  -- The station refuses it: the id is used up.
  refuse :
      {p : Progress} (t : Transition)
      → MayLaunch t p
      → Move Step.executes p (retired (launched t p))
  -- It ends by the completion with its id and its kind.
  retire :
      {p : Progress} (o : OperationResult)
      → IsLive p
      → o.id ≢ 0
      → o.id ≡ p.station_id
      → kind_eq o.kind (expected_kind p.transition) ≡ true
      → Move (Step.finishes o) p (retired p)
  -- A connection is cancelled once.
  stop :
      {k : Step} {p : Progress}
      → IsTask k
      → IsLive p
      → p.transition ≡ Transition.connect
      → p.cancelling ≡ false
      → Move k p (record p { cancelling = true })
  queue_scan :
      {p : Progress}
      → IsLive p
      → p.transition ≡ Transition.none
      → p.scan ≡ ScanPhase.idle
      → Move Step.scans p (record p { scan = ScanPhase.queued })
  drop_scan :
      {k : Step} {p : Progress}
      → p.scan ≡ ScanPhase.queued
      → Move k p (record p { scan = ScanPhase.idle })
  -- A queued scan runs when no transition is active.
  run_scan : {p : Progress} → MayScan p → Move Step.executes p (scanning p)
  refuse_scan : {p : Progress} → MayScan p → Move Step.executes p (scanned (scanning p))
  stop_scan :
      {k : Step} {p : Progress}
      → p.scan ≡ ScanPhase.running
      → Move k p (record p { scan = ScanPhase.cancelling })
  end_scan :
      {p : Progress} (o : OperationResult)
      → IsLive p
      → o.id ≢ 0
      → o.id ≡ p.scan_id
      → kind_eq o.kind OperationKind.scan ≡ true
      → Move (Step.finishes o) p (scanned p)
  fail : {k : Step} {p : Progress} → IsTask k → IsLive p → Move k p (failed p)

-- The moves of one step, in order.
pub data Walk (k : Step) : Progress → Progress → Type 0 where
  here : {p : Progress} → Walk k p p
  next : {p q u : Progress} → Walk k p q → Move k q u → Walk k p u

pub one : {k : Step} {p q : Progress} → Move k p q → Walk k p q
one m = next here m

pub trans : {k : Step} {p q u : Progress} → Walk k p q → Walk k q u → Walk k p u
trans a here = a
trans a (next b m) = next (trans a b) m

-- What holds of every controller between two steps: ids stand for active operations, one transition
-- at a time, and are below the next one.
pub record IsOrderly (p : Progress) : Type 0 where
  pub idle_station : p.station_id ≡ 0 → p.transition ≡ Transition.none
  pub busy_station : p.station_id ≢ 0 → p.transition ≢ Transition.none
  pub idle_scan : p.scan_id ≡ 0 → (p.scan ≡ ScanPhase.idle) ⊎ (p.scan ≡ ScanPhase.queued)
  pub busy_scan : p.scan_id ≢ 0 → (p.scan ≡ ScanPhase.running) ⊎ (p.scan ≡ ScanPhase.cancelling)
  pub station_below : p.station_id < p.next_id
  pub scan_below : p.scan_id < p.next_id
  pub distinct : p.station_id ≢ 0 → p.station_id ≢ p.scan_id
  pub bounded : p.next_id ≤ max_id
  pub cancels_connect : IsLive p → p.cancelling ≡ true → p.transition ≡ Transition.connect
  pub faulted_idle : p.faulted ≡ true → (p.station_id ≡ 0) × (p.scan_id ≡ 0)
  pub closed_idle : p.closed ≡ true → (p.running ≡ false) × (p.station_id ≡ 0) × (p.scan_id ≡ 0)
  pub stopped_idle :
      p.running ≡ false → (p.station_id ≡ 0) × (p.cancelling ≡ false ⊎ p.closed ≡ true)

pub Move-IsOrderly : {k : Step} {p q : Progress} → Move k p q → IsOrderly p → IsOrderly q
Move-IsOrderly (Move.start run open_) o = ground arith
Move-IsOrderly (Move.close open_) o = ground arith
Move-IsOrderly (Move.launch t may) o = ground arith
Move-IsOrderly (Move.refuse t may) o = ground arith
Move-IsOrderly (Move.retire result live some_id own kind) o = ground arith
Move-IsOrderly (Move.stop task live connecting once) o = ground arith
Move-IsOrderly (Move.queue_scan live free idle) o = ground arith
Move-IsOrderly (Move.drop_scan queued) o = ground arith
Move-IsOrderly (Move.run_scan may) o = ground arith
Move-IsOrderly (Move.refuse_scan may) o = ground arith
Move-IsOrderly (Move.stop_scan running) o = ground arith
Move-IsOrderly (Move.end_scan result live some_id own kind) o = ground arith
Move-IsOrderly (Move.fail task live) o = ground arith

pub Walk-IsOrderly : {k : Step} {p q : Progress} → Walk k p q → IsOrderly p → IsOrderly q
Walk-IsOrderly here o = o
Walk-IsOrderly (next a m) o = Move-IsOrderly m (Walk-IsOrderly a o)
