-- ===== src/Tests/Radio.antt =====
-- A native station whose commands succeed, and a connection through the adapter.
use roo_wifi.Base.{◌+◌, ◌≤◌, ◌<◌, ◌≡◌, refl, true, false, List, [], ◌∷◌, ◌++◌, pos, arith, bytes_eq}
use roo_wifi.Types.{
  Status, done, OperationKind, no_operation, LinkPhase, LinkState, idle_link, AuthMode,
}
use roo_wifi.Ordered.Events.{EventKind, Event, QueuedEvent, queued, expand}
use roo_wifi.Ordered.Station.{NativeStation, Adapter, adapter}
use roo_wifi.Ordered.Queue.{queue_size, post, front, advance}
use roo_wifi.Ordered.Machine.{
  process, drain, drain_loop, process_address, dispatch, same_ssid, finish_station,
}
use roo_wifi.Ordered.Tally.{delivered, is_active}
use roo_wifi.Ordered.Runs.{Call, run, admissions, reports_match-run}
use roo_wifi.Ordered.Fifo.{IsRing, pending, IsRing-fifo, process-expand}
use roo_wifi.Ordered.Turns.{drain_ends}
use roo_wifi.Ordered.Reports.{IsReport, process-IsReport}
use roo_wifi.Tests.Data.{home, home_config, ip}

abbrev pub willing : NativeStation
willing = record {
  Native = Unit {0};
  attach = λ m. (Status.ok, m);
  detach = λ m. m;
  support = λ m. record {
    authentication_modes = 16;
    hidden_networks = true;
    static_ipv4 = true;
    randomized_mac = true;
    scan_while_connected = true;
  };
  enable = λ m on. (Status.ok, m);
  scan = λ m capacity. (Status.ok, m);
  stop_scan = λ m. (Status.ok, m);
  connect = λ m config secret. (Status.ok, m);
  continue_connect = λ m. (Status.ok, m);
  disconnect = λ m. (Status.ok, m);
  read_scan = λ m capacity. done ([], false);
}

abbrev event : EventKind → LinkState → Event
event kind link = record { kind = kind; link = link; status = Status.ok; native_code = pos 0 }

abbrev home_link : LinkState
home_link = record idle_link {
  connection_id = 7;
  phase = LinkPhase.associated;
  ssid = home;
  security = AuthMode.wpa2_personal;
}

abbrev fresh : Adapter willing
fresh = adapter willing tt

-- An adapter in the middle of the connection 7 to the home network, associated with it.
abbrev connecting : Adapter willing
connecting = record fresh {
  has_sink = true;
  attached = true;
  enabled = true;
  station = record no_operation { id = 7; kind = OperationKind.connect };
  link = home_link;
  config = home_config;
}

abbrev address_ready : Event
address_ready =
    event EventKind.address_ready (record home_link { address = ip 20; has_ipv4 = true })

abbrev calls : List Call
calls =
    Call.disconnecting 9 ∷ Call.posting address_ready ∷ Call.draining ∷ Call.disconnecting 8 ∷ []

reports_match-run_example :
    delivered 7 (run calls connecting).outputs
      + is_active 7 (run calls connecting).station
      + is_active 7 (run calls connecting).scan
    ≡ delivered 7 connecting.outputs
      + is_active 7 connecting.station
      + is_active 7 connecting.scan
      + admissions 7 calls connecting
reports_match-run_example = reports_match-run 7 calls connecting (λ e. omega (arith, e))

connecting-IsRing : IsRing connecting
unfolding adapter
connecting-IsRing = record { full = refl; head_fits = omega arith; count_fits = omega arith }

IsRing-fifo_example :
    IsRing (post address_ready connecting)
    × IsRing (advance connecting)
    × (connecting.count < queue_size
        → (pending (post address_ready connecting)
            ≡ pending connecting ++ queued address_ready ∷ [])
          × ((post address_ready connecting).overflow ≡ connecting.overflow))
    × (connecting.count ≡ queue_size
        → (pending (post address_ready connecting) ≡ pending connecting)
          × ((post address_ready connecting).overflow ≡ true))
    × (1 ≤ connecting.count
        → (q : QueuedEvent) × (pending connecting ≡ q ∷ pending (advance connecting))
          × (front connecting ≡ expand q))
IsRing-fifo_example = IsRing-fifo address_ready connecting connecting-IsRing

process-expand_example :
    process (expand (queued address_ready)) connecting ≡ process address_ready connecting
process-expand_example = process-expand address_ready connecting (λ e. cc)

drain_ends_example :
    ((drain connecting).count ≡ 0)
    × (drain_loop (connecting.count + 1 + 5) (record connecting { scheduled = false })
        ≡ drain connecting)
drain_ends_example = drain_ends 5 connecting refl

address_ends : (process address_ready connecting).station.id ≡ 0
unfolding process dispatch process_address same_ssid finish_station adapter bytes_eq
address_ends = refl

process-IsReport_example : IsReport 7 (process address_ready connecting)
process-IsReport_example =
    process-IsReport connecting refl (λ e. omega (arith, e)) address_ready address_ends
