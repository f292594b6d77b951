-- ===== src/Ordered/Events.antt =====
-- NativeStation::Event and OrderedInterface::QueuedEvent.
use roo_wifi.Base.{ℕ, Bool, true, false, ℤ, pos, if◌then◌else◌}
use roo_wifi.Types.{
  Status, Ssid, empty_ssid, MacAddress, zero_mac, Ipv4Address, zero_ip, AuthMode, ConnectionFailure,
  LinkState, idle_link,
}

-- enum Kind : uint8_t
pub data EventKind : Type 0 where
  enabled disabled associated address_ready address_lost disconnected scan_done prepared : EventKind

-- struct NativeStation::Event
pub record Event : Type 0 where
  pub kind : EventKind
  pub link : LinkState
  pub status : Status
  pub native_code : ℤ

-- The kinds that keep the SSID and the BSSID.
abbrev pub is_link_event : EventKind → Bool
is_link_event EventKind.associated = true
is_link_event EventKind.address_ready = true
is_link_event EventKind.disconnected = true
is_link_event _ = false

-- struct QueuedEvent::Association
pub record Association : Type 0 where
  pub station_mac : MacAddress
  pub security : AuthMode
  pub rssi_dbm : ℤ
  pub channel : ℕ
  pub has_radio_info : Bool
  pub has_station_mac : Bool

-- struct QueuedEvent::Addresses
pub record Addresses : Type 0 where
  pub address : Ipv4Address
  pub gateway : Ipv4Address
  pub dns1 : Ipv4Address
  pub dns2 : Ipv4Address
  pub has_ipv4 : Bool
  pub has_dns1 : Bool
  pub has_dns2 : Bool

-- union QueuedEvent::Payload, by its active member.
pub data Payload : Type 0 where
  association : Association → Payload
  addresses : Addresses → Payload

abbrev pub no_addresses : Addresses
no_addresses = record {
  address = zero_ip;
  gateway = zero_ip;
  dns1 = zero_ip;
  dns2 = zero_ip;
  has_ipv4 = false;
  has_dns1 = false;
  has_dns2 = false;
}

-- struct OrderedInterface::QueuedEvent
pub record QueuedEvent : Type 0 where
  pub native_code : ℤ
  pub failure : ConnectionFailure
  pub kind : EventKind
  pub status : Status
  pub ssid : Ssid
  pub bssid : MacAddress
  pub payload : Payload

-- QueuedEvent() = default
abbrev pub empty_slot : QueuedEvent
empty_slot = record {
  native_code = pos 0;
  failure = ConnectionFailure.none;
  kind = EventKind.enabled;
  status = Status.ok;
  ssid = empty_ssid;
  bssid = zero_mac;
  payload = Payload.addresses no_addresses;
}

abbrev pub association_of : LinkState → Association
association_of link = record {
  station_mac = link.station_mac;
  security = link.security;
  rssi_dbm = link.rssi_dbm;
  channel = link.channel;
  has_radio_info = link.has_radio_info;
  has_station_mac = link.has_station_mac;
}

abbrev pub addresses_of : LinkState → Addresses
addresses_of link = record {
  address = link.address;
  gateway = link.gateway;
  dns1 = link.dns1;
  dns2 = link.dns2;
  has_ipv4 = link.has_ipv4;
  has_dns1 = link.has_dns1;
  has_dns2 = link.has_dns2;
}

unfoldable pub payload_of : EventKind → LinkState → Payload
payload_of EventKind.associated link = Payload.association (association_of link)
payload_of EventKind.disconnected link = Payload.association (association_of link)
payload_of EventKind.address_ready link = Payload.addresses (addresses_of link)
payload_of _ link = Payload.addresses no_addresses

-- QueuedEvent::QueuedEvent(const Event&)
unfoldable pub queued : Event → QueuedEvent
queued event = record {
  native_code = event.native_code;
  failure = event.link.failure;
  kind = event.kind;
  status = event.status;
  ssid = if is_link_event event.kind then event.link.ssid else empty_ssid;
  bssid = if is_link_event event.kind then event.link.bssid else zero_mac;
  payload = payload_of event.kind event.link;
}

abbrev pub with_association : Association → LinkState → LinkState
with_association a link = record link {
  station_mac = a.station_mac;
  security = a.security;
  rssi_dbm = a.rssi_dbm;
  channel = a.channel;
  has_radio_info = a.has_radio_info;
  has_station_mac = a.has_station_mac;
}

abbrev pub with_addresses : Addresses → LinkState → LinkState
with_addresses a link = record link {
  address = a.address;
  gateway = a.gateway;
  dns1 = a.dns1;
  dns2 = a.dns2;
  has_ipv4 = a.has_ipv4;
  has_dns1 = a.has_dns1;
  has_dns2 = a.has_dns2;
}

-- The reads of the payload, for the member that is active.
unfoldable pub expand_payload : EventKind → Payload → LinkState → LinkState
expand_payload EventKind.associated (Payload.association a) link = with_association a link
expand_payload EventKind.disconnected (Payload.association a) link = with_association a link
expand_payload EventKind.address_ready (Payload.addresses a) link = with_addresses a link
expand_payload _ _ link = link

-- QueuedEvent::expand
unfoldable pub expand : QueuedEvent → Event
expand q = record {
  kind = q.kind;
  link = expand_payload q.kind q.payload (record idle_link {
    failure = q.failure;
    ssid = if is_link_event q.kind then q.ssid else empty_ssid;
    bssid = if is_link_event q.kind then q.bssid else zero_mac;
  });
  status = q.status;
  native_code = q.native_code;
}
