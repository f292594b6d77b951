-- ===== src/Control/Same.antt =====
-- SameConfig and the comparison of credentials in src/roo_wifi/controller.cpp.
use roo_wifi.Base.{Bool, true, false, not, ◌&&◌, ◌||◌, ◌==◌, take, bytes_eq}
use roo_wifi.Types.{
  Ipv4Address, auth_eq, IpMode, ip_mode_code, mac_policy_code, StaticIpv4, ConnectionConfig,
  encoding_code, Credentials,
}

abbrev pub ip_eq : Ipv4Address → Ipv4Address → Bool
ip_eq a b = a.byte0 == b.byte0 && (a.byte1 == b.byte1 && (a.byte2 == b.byte2 && a.byte3 == b.byte3))

abbrev pub bool_eq : Bool → Bool → Bool
bool_eq true b = b
bool_eq false b = not b

-- SameConfig, the static settings.
unfoldable pub same_static : StaticIpv4 → StaticIpv4 → Bool
same_static a b =
    ip_eq a.address b.address
    && (ip_eq a.gateway b.gateway
        && (ip_eq a.dns1 b.dns1
            && (a.prefix_length == b.prefix_length
                && (bool_eq a.has_dns2 b.has_dns2 && (not a.has_dns2 || ip_eq a.dns2 b.dns2)))))

-- SameConfig
unfoldable pub same_config : ConnectionConfig → ConnectionConfig → Bool
same_config a b =
    (a.ssid.size == b.ssid.size
      && bytes_eq (take a.ssid.size a.ssid.bytes) (take a.ssid.size b.ssid.bytes))
    && (auth_eq a.security b.security
        && (bool_eq a.hidden b.hidden
            && (ip_mode_code a.ip_mode == ip_mode_code b.ip_mode
                && (mac_policy_code a.mac_policy == mac_policy_code b.mac_policy
                    && (not (ip_mode_code a.ip_mode == ip_mode_code IpMode.static_ipv4)
                        || same_static a.static_ipv4 b.static_ipv4)))))

-- The comparison of credentials in requestConnection.
unfoldable pub same_secret : Credentials → Credentials → Bool
same_secret a b =
    encoding_code a.encoding == encoding_code b.encoding
    && (a.size == b.size && bytes_eq (take b.size a.bytes) (take b.size b.bytes))
