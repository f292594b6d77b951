-- ===== src/Control/Interfaces.antt =====
-- What the controller uses: class Interface of src/roo_wifi/hal/interface.h and class Store of
-- src/roo_wifi/hal/store.h.
use roo_wifi.Base.{ℕ, Bool, List}
use roo_wifi.Types.{
  Status, Result, Ssid, ConnectionConfig, Credentials, CredentialUpdate, ProfileSettings, Profile,
  ScanRecord, Support,
}

-- The records that readScanResults copies, and Interface::ScanRead.
pub record ScanRead : Type 0 where
  pub records : List ScanRecord
  pub count : ℕ
  pub truncated : Bool

-- class Interface. A command returns its status with the radio that it leaves. The sink hears of the
-- outcome later.
pub record Interface : Type 1 where
  pub Radio : Type 0
  pub begin : Radio → Status × Radio
  pub support : Radio → Support
  pub set_enabled : Radio → ℕ → Bool → Status × Radio
  pub start_scan : Radio → ℕ → ℕ → Status × Radio
  pub connect : Radio → ℕ → ConnectionConfig → Credentials → Status × Radio
  pub disconnect : Radio → ℕ → Status × Radio
  pub cancel_scan : Radio → Status × Radio
  pub cancel_connect : Radio → Status × Radio
  pub read_scan_results : Radio → ℕ → Result ScanRead
  pub shutdown : Radio → Radio

-- class Store.
pub record Store : Type 1 where
  pub Data : Type 0
  pub begin : Data → Status × Data
  pub load_profile : Data → Ssid → Result Profile
  pub load_credentials : Data → Ssid → Result Credentials
  pub save_profile : Data → ProfileSettings → CredentialUpdate → Status × Data
  pub remove_profile : Data → Ssid → Status × Data
  pub read_last_profile : Data → Result Ssid
  pub write_last_profile : Data → Ssid → Status × Data
  pub read_enabled : Data → Result Bool
  pub write_enabled : Data → Bool → Status × Data
