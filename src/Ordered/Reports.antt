-- ===== src/Ordered/Reports.antt =====
-- What the report of a connection says about the link.
use roo_wifi.Base.{
  ℕ, ◌≡◌, ◌≢◌, refl, Bool, true, false, List, ◌∷◌, if◌then◌else◌, arith, ℤ, ◌⊎◌, inl, inr, sym, ap,
  ◌∙◌,
}
use mathlib.Core.Path.{subst}
use roo_wifi.Types.{Status, is_ok, OperationKind, OperationResult, no_operation, LinkPhase}
use roo_wifi.Ordered.Events.{EventKind, Event}
use roo_wifi.Ordered.Station.{NativeStation, Adapter, Output}
use roo_wifi.Ordered.Machine.{
  finish_station, finish_scan, command_failed, set_radio, process_enabled, process_prepared,
  process_associated, process_address, process_lost, process_disconnected, disconnected_link,
  keep_radio_info, dispatch, process,
}

-- The result of the latest call of the sink, if it was a completion.
abbrev pub latest : List Output → OperationResult
latest (Output.finished r ∷ os) = r
latest _ = no_operation

-- The latest call reports the connection `id`, with kOk only on a link of its own that has an address.
pub record IsReport {n : NativeStation} (id : ℕ) (s : Adapter n) : Type 0 where
  pub same_id : (latest s.outputs).id ≡ id
  pub same_kind : (latest s.outputs).kind ≡ OperationKind.connect
  pub ready : (latest s.outputs).status ≡ Status.ok → s.link.phase ≡ LinkPhase.address_ready
  pub own_link : (latest s.outputs).status ≡ Status.ok → s.link.connection_id ≡ id
  pub addressed : (latest s.outputs).status ≡ Status.ok → s.link.has_ipv4 ≡ true

module _ {n : NativeStation} (s : Adapter n) (kind : s.station.kind ≡ OperationKind.connect)
    (active : s.station.id ≢ 0) where
  IsReport-enabled :
      (on : Bool) (e : Event)
      → (process_enabled on e s).station.id ≡ 0
      → IsReport s.station.id (process_enabled on e s)
  unfolding process_enabled set_radio
  IsReport-enabled on e ended = ground arith

  IsReport-prepared :
      (process_prepared s).station.id ≡ 0 → IsReport s.station.id (process_prepared s)
  unfolding process_prepared command_failed finish_station is_ok
  IsReport-prepared ended = ground arith

  IsReport-address :
      (e : Event)
      → (process_address e s).station.id ≡ 0
      → IsReport s.station.id (process_address e s)
  unfolding process_address finish_station
  IsReport-address e ended = ground arith

  IsReport-disconnected :
      (e : Event)
      → (process_disconnected e s).station.id ≡ 0
      → IsReport s.station.id (process_disconnected e s)
  unfolding process_disconnected finish_station disconnected_link keep_radio_info is_ok
  IsReport-disconnected e ended = ground arith

  IsReport-scan :
      (r : Status) (c : ℤ)
      → (finish_scan r c s).station.id ≡ 0
      → IsReport s.station.id (finish_scan r c s)
  unfolding finish_scan
  IsReport-scan r c ended = ground arith

  IsReport-associated :
      (e : Event)
      → (process_associated e s).station.id ≡ 0
      → IsReport s.station.id (process_associated e s)
  unfolding process_associated
  IsReport-associated e ended = ground arith

  IsReport-lost : (process_lost s).station.id ≡ 0 → IsReport s.station.id (process_lost s)
  unfolding process_lost
  IsReport-lost ended = ground arith

  IsReport-dispatch :
      (k : EventKind) (e : Event)
      → (dispatch k e s).station.id ≡ 0
      → IsReport s.station.id (dispatch k e s)
  unfolding dispatch
  IsReport-dispatch EventKind.enabled e ended = IsReport-enabled true e ended
  IsReport-dispatch EventKind.disabled e ended = IsReport-enabled false e ended
  IsReport-dispatch EventKind.prepared e ended = IsReport-prepared ended
  IsReport-dispatch EventKind.scan_done e ended = IsReport-scan e.status e.native_code ended
  IsReport-dispatch EventKind.associated e ended = IsReport-associated e ended
  IsReport-dispatch EventKind.address_ready e ended = IsReport-address e ended
  IsReport-dispatch EventKind.address_lost e ended = IsReport-lost ended
  IsReport-dispatch EventKind.disconnected e ended = IsReport-disconnected e ended

  process_cases : (e : Event) → (process e s ≡ s) ⊎ (process e s ≡ dispatch e.kind e s)
  unfolding process
  process_cases e =
      elim s.faulted
        as (λ f.
          ((if f then s else dispatch e.kind e s) ≡ s)
          ⊎ ((if f then s else dispatch e.kind e s) ≡ dispatch e.kind e s)) [
            | true ↦ inl refl
            | false ↦ inr refl
          ]

  -- An event that ends an active connection reports it to the sink with its id, and with kOk only if
  -- the link is that connection's own and has an address.
  pub process-IsReport :
      (e : Event) → (process e s).station.id ≡ 0 → IsReport s.station.id (process e s)
  process-IsReport e ended = elim (process_cases e) [
    | inl h ↦ absurd (active (sym (ap (λ (t : Adapter n). t.station.id) h) ∙ ended))
    | inr h ↦
        subst (λ t. t.station.id ≡ 0 → IsReport s.station.id t) (sym h) (IsReport-dispatch e.kind e)
          ended
  ]
