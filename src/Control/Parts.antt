-- ===== src/Control/Parts.antt =====
-- The repository's own implementations of the controller's interfaces: OrderedInterface as the
-- radio, FieldStore as the store.
use roo_wifi.Base.{◌≡◌, ◌∙◌, ap, Bool, true, false, not, ◌==◌, length, List, arith}
use roo_wifi.Types.{
  Status, is_ok, Result, done, err, ◌>>=◌, Ssid, ScanRecord, CredentialUpdate, ProfileSettings,
  Profile, Credentials,
}
use roo_wifi.FieldStore.Backend.{Backend, IsDurable}
use roo_wifi.FieldStore.{
  load_profile, load_credentials, save_profile, remove_profile, read_last_profile,
  write_last_profile, chosen_secret,
}
use roo_wifi.FieldStore.SaveLoad.{stored_secret, load-save}
use roo_wifi.Codec.RoundTrip.{IsStorable, IsSecret, clear_profile}
use roo_wifi.Ordered.Station.{NativeStation, Adapter}
use roo_wifi.Ordered.Commands.{
  begin, support, set_enabled, start_scan, connect, disconnect, cancel_scan, cancel_connect,
  read_scan_results, shutdown,
}
use roo_wifi.Control.Interfaces.{Interface, Store, ScanRead}
use roo_wifi.Control.State.{Controller}
use roo_wifi.Control.Retry.{changed}
use roo_wifi.Control.Requests as Requests

-- The records and the count that a read gives.
abbrev scan_read : Result (List ScanRecord × Bool) → Result ScanRead
scan_read (done (records, truncated)) =
    done (record { records = records; count = length records; truncated = truncated })
scan_read (err s) = err s

-- OrderedInterface as an Interface.
abbrev pub ordered_interface : NativeStation → Interface
ordered_interface n = record {
  Radio = Adapter n;
  begin = begin;
  support = support;
  set_enabled = λ s id enabled. set_enabled id enabled s;
  start_scan = λ s id capacity. start_scan id capacity s;
  connect = λ s id config secret. connect id config secret s;
  disconnect = λ s id. disconnect id s;
  cancel_scan = cancel_scan;
  cancel_connect = cancel_connect;
  read_scan_results = λ s capacity. scan_read (read_scan_results capacity s);
  shutdown = shutdown;
}

-- What FieldStore leaves to a platform besides the fields.
pub record Platform (b : Backend) : Type 0 where
  pub begin : b.Fields → Status × b.Fields
  pub read_enabled : b.Fields → Result Bool
  pub write_enabled : b.Fields → Bool → Status × b.Fields

-- FieldStore as a Store.
abbrev pub field_store : (b : Backend) → Platform b → Store
field_store b p = record {
  Data = b.Fields;
  begin = p.begin;
  load_profile = load_profile b;
  load_credentials = load_credentials b;
  save_profile = save_profile b;
  remove_profile = remove_profile b;
  read_last_profile = read_last_profile b;
  write_last_profile = write_last_profile b;
  read_enabled = p.read_enabled;
  write_enabled = p.write_enabled;
}

abbrev profile_of : (ProfileSettings × Credentials) → Result Profile
profile_of (settings, secret) =
    done (record { settings = settings; has_credentials = not (secret.size == 0) })

module _ {r : Interface} (b : Backend) (p : Platform b) (durable : IsDurable b) where
  saves :
      (s : ProfileSettings) (u : CredentialUpdate) (c : Controller r (field_store b p))
      → is_ok (Requests.save_profile s u c).0 ≡ true
      → (c.running ≡ true)
        × (Requests.is_bad_ssid s.connection.ssid ≡ false)
        × (is_ok (save_profile b c.store s u).0 ≡ true)
        × ((Requests.save_profile s u c).1.running ≡ true)
        × ((Requests.save_profile s u c).1.store ≡ (save_profile b c.store s u).1)
  unfolding Requests.save_profile Requests.profiles_changed changed is_ok
  saves s u c h = ground arith

  loads :
      (ssid : Ssid) (c : Controller r (field_store b p))
      → c.running ≡ true
      → Requests.is_bad_ssid ssid ≡ false
      → Requests.load_profile ssid c ≡ load_profile b c.store ssid
  unfolding Requests.load_profile
  loads ssid c run good = ground arith

  -- A profile that the controller saved with kOk over a durable field store loads again, with the
  -- settings saved and with credentials exactly if the update left some.
  pub load_profile-save_profile :
      (s : ProfileSettings) (u : CredentialUpdate) (c : Controller r (field_store b p))
      → IsStorable s
      → IsSecret u.replacement
      → is_ok (Requests.save_profile s u c).0 ≡ true
      → (secret : Credentials) × (chosen_secret b c.store s.connection.ssid u.intent u.replacement
          ≡ done secret)
        × (Requests.load_profile s.connection.ssid (Requests.save_profile s u c).1
            ≡ done (record {
              settings = clear_profile s;
              has_credentials = not ((stored_secret u.intent secret).size == 0);
            }))
  unfolding load_profile
  load_profile-save_profile s u c v w h =
      let (run, good, stored, runs, same) = saves s u c h in
      let (secret, chosen, read) = load-save b c.store s u durable v w stored in
      (
        secret,
        chosen,
        loads s.connection.ssid (Requests.save_profile s u c).1 runs good
            ∙ ap (λ (fs : b.Fields). load_profile b fs s.connection.ssid) same
            ∙ ap (λ (x : Result (ProfileSettings × Credentials)). x >>= profile_of) read,
      )
