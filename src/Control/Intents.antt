-- ===== src/Control/Intents.antt =====
-- Requests of class Controller that repeat one another.
use roo_wifi.Base.{◌≤◌, ◌≡◌, refl, ap, ◌∙◌, Bool, true, false, take, bytes_eq_self, arith}
use roo_wifi.Types.{Status, is_ok, Ssid, ssid_eq_self, StaticIpv4, ConnectionConfig, Credentials}
use roo_wifi.Control.Interfaces.{Interface, Store}
use roo_wifi.Control.State.{Controller, is_disabled}
use roo_wifi.Control.Retry.{changed, cancel_retry}
use roo_wifi.Control.Same.{same_static, same_config, same_secret, bool_eq}
use roo_wifi.Control.Requests.{
  admission, support, new_intent, same_intent, accept_connection, connection_admission,
  request_connection,
}

bool_eq_self : (b : Bool) → bool_eq b b ≡ true
bool_eq_self b = ground arith

same_static_self : (s : StaticIpv4) → same_static s s ≡ true
unfolding same_static
same_static_self s = ground (arith, bool_eq_self s.has_dns2)

same_config_self : (g : ConnectionConfig) → same_config g g ≡ true
unfolding same_config
same_config_self g = ground (
  arith,
  bytes_eq_self (take g.ssid.size g.ssid.bytes),
  same_static_self g.static_ipv4,
  bool_eq_self g.hidden,
)

same_secret_self : (s : Credentials) → same_secret s s ≡ true
unfolding same_secret
same_secret_self s = ground (arith, bytes_eq_self (take s.size s.bytes))

module _ {r : Interface} {t : Store} where
  -- What an accepted connection leaves of the intent.
  accepted :
      (g : ConnectionConfig) (s : Credentials) (p : Ssid) (a : Bool) (c : Controller r t)
      → p.size ≤ 32
      → same_intent g s p (accept_connection g s p a c) ≡ true
  unfolding accept_connection same_intent new_intent changed cancel_retry is_ok
  accepted g s p a c h = ground (arith, same_config_self g, same_secret_self s, ssid_eq_self p h)

  same_auto :
      (g : ConnectionConfig) (s : Credentials) (p : Ssid) (a : Bool) (c : Controller r t)
      → record (accept_connection g s p a c) { auto_connect = a } ≡ accept_connection g s p a c
  unfolding accept_connection new_intent changed cancel_retry
  same_auto g s p a c = ground arith

  keeps_intent :
      (g : ConnectionConfig) (s : Credentials) (p : Ssid) (a : Bool) (c : Controller r t)
      → same_intent g s p c ≡ true
      → accept_connection g s p a c ≡ record c { auto_connect = a }
  unfolding accept_connection
  keeps_intent g s p a c h = ground arith

  acceptance :
      (g : ConnectionConfig) (s : Credentials) (p : Ssid) (a : Bool) (c : Controller r t)
      → ((accept_connection g s p a c).running ≡ c.running)
        × ((accept_connection g s p a c).faulted ≡ c.faulted)
        × ((accept_connection g s p a c).next_id ≡ c.next_id)
        × ((accept_connection g s p a c).radio ≡ c.radio)
        × (is_disabled (accept_connection g s p a c).state.desired ≡ false)
  unfolding accept_connection same_intent new_intent changed cancel_retry
  acceptance g s p a c = ground arith

  -- What connection_admission reads of a controller.
  admission-accept :
      (g : ConnectionConfig) (s : Credentials) (p : Ssid) (a : Bool) (c : Controller r t)
      → admission (accept_connection g s p a c) ≡ admission c
  unfolding admission
  admission-accept g s p a c =
      let (running, faulted, next, _, _) = acceptance g s p a c in
      rw running (rw faulted (rw next refl))

  support-accept :
      (g : ConnectionConfig) (s : Credentials) (p : Ssid) (a : Bool) (c : Controller r t)
      → support (accept_connection g s p a c) ≡ support c
  unfolding support
  support-accept g s p a c = let (_, _, _, radio, _) = acceptance g s p a c in ap r.support radio

  admitted_again :
      (g : ConnectionConfig) (s : Credentials) (p : Ssid) (a : Bool) (c : Controller r t)
      → is_ok (connection_admission g s c) ≡ true
      → is_ok (connection_admission g s (accept_connection g s p a c)) ≡ true
  unfolding connection_admission is_ok
  admitted_again g s p a c h =
      let (_, _, _, _, wanted) = acceptance g s p a c in
      rw (admission-accept g s p a c) (rw (support-accept g s p a c) (rw wanted (ground arith)))

  accepted_twice :
      (g : ConnectionConfig) (s : Credentials) (p : Ssid) (a : Bool) (c : Controller r t)
      → p.size ≤ 32
      → accept_connection g s p a (accept_connection g s p a c) ≡ accept_connection g s p a c
  accepted_twice g s p a c h =
      keeps_intent g s p a (accept_connection g s p a c) (accepted g s p a c h)
      ∙ same_auto g s p a c

  admitted_request :
      (g : ConnectionConfig) (s : Credentials) (p : Ssid) (a : Bool) (c : Controller r t)
      → is_ok (request_connection g s p a c).0 ≡ true
      → is_ok (connection_admission g s c) ≡ true
  unfolding request_connection
  admitted_request g s p a c h = ground arith

  granted :
      (g : ConnectionConfig) (s : Credentials) (p : Ssid) (a : Bool) (c : Controller r t)
      → is_ok (connection_admission g s c) ≡ true
      → request_connection g s p a c ≡ (Status.ok, accept_connection g s p a c)
  unfolding request_connection
  granted g s p a c h = ground arith

  -- A request for a connection to an SSID of a valid length that is granted can be repeated: the second one is granted too and
  -- changes nothing, so no new intent replaces the first.
  pub request_connection_twice :
      (g : ConnectionConfig) (s : Credentials) (p : Ssid) (a : Bool) (c : Controller r t)
      → p.size ≤ 32
      → is_ok (request_connection g s p a c).0 ≡ true
      → request_connection g s p a (request_connection g s p a c).1
        ≡ (Status.ok, (request_connection g s p a c).1)
  request_connection_twice g s p a c h k =
      let ok = admitted_request g s p a c k in
      let first = ap (λ (x : Status × Controller r t). x.1) (granted g s p a c ok) in
      rw first (
        granted g s p a (accept_connection g s p a c) (admitted_again g s p a c ok)
        ∙ ap (λ (d : Controller r t). (Status.ok, d)) (accepted_twice g s p a c h))
