-- ===== src/Tests/Data.antt =====
-- A field store in memory, and the settings that the runs use.
use roo_wifi.Base.{
  ℕ, ◌≤◌, ◌≡◌, refl, ◌≢◌, Bool, true, false, List, [], ◌∷◌, leb, if◌then◌else◌, length, replicate,
  bytes_eq, bytes_eq_self, eq_of-bytes_eq, arith,
}
use roo_wifi.Types.{
  Status, Result, done, err, Ssid, Ipv4Address, AuthMode, IpMode, MacPolicy, auth_code,
  ip_mode_code, mac_policy_code, encoding_code, StaticIpv4, ConnectionConfig, CredentialEncoding,
  Credentials, CredentialIntent, CredentialUpdate, ProfileSettings, IsSsid,
}
use roo_wifi.Configuration.Subnet.{IsAddressed}
use roo_wifi.Codec.RoundTrip.{IsStorable, IsSecret}
use roo_wifi.FieldStore.Backend.{Backend, IsDurable}

abbrev pub Memory : Type 0
Memory = List (List ℕ × List ℕ)

unfoldable pub find : Memory → List ℕ → ℕ → Result (List ℕ)
find [] k capacity = err Status.not_found
find ((j, d) ∷ m) k capacity =
    let rest = find m k capacity in
    if bytes_eq j k then (if leb (length d) capacity then done d else err Status.corrupt) else rest

unfoldable pub discard : Memory → List ℕ → Memory
discard [] k = []
discard ((j, d) ∷ m) k = let rest = discard m k in if bytes_eq j k then rest else (j, d) ∷ rest

unfoldable pub visit_all : (C : Type 0) → Memory → (C → List ℕ → Bool × C) → C → Status × C
visit_all C [] visitor context = (Status.ok, context)
visit_all C ((j, d) ∷ m) visitor context =
    let (more, context') = visitor context j in
    let rest = visit_all C m visitor context' in if more then rest else (Status.stopped, context')

abbrev pub memory : Backend
memory = record {
  Fields = Memory;
  read_field = find;
  write_field = λ m k d. (Status.ok, (k, d) ∷ m);
  erase_field = λ m k. (Status.ok, discard m k);
  enumerate_fields = visit_all;
}

find-reports : (m : Memory) (k : List ℕ) (capacity : ℕ) → find m k capacity ≢ err Status.ok
unfolding find
find-reports [] k capacity h = cc
find-reports ((j, d) ∷ m) k capacity h = ground (arith, find-reports m k capacity)

find-discard :
    (m : Memory) (k : List ℕ) (capacity : ℕ) → find (discard m k) k capacity ≡ err Status.not_found
unfolding find discard
find-discard [] k capacity = refl
find-discard ((j, d) ∷ m) k capacity = ground (arith, find-discard m k capacity)

find-discard_other :
    (m : Memory) (k j : List ℕ) (capacity : ℕ)
    → j ≢ k
    → find (discard m k) j capacity ≡ find m j capacity
unfolding find discard
find-discard_other [] k j capacity h = refl
find-discard_other ((i, d) ∷ m) k j capacity h =
    ground (arith, find-discard_other m k j capacity h, eq_of-bytes_eq i k, eq_of-bytes_eq i j)

find-written :
    (m : Memory) (k d : List ℕ) (capacity : ℕ)
    → length d ≤ capacity
    → find ((k, d) ∷ m) k capacity ≡ done d
unfolding find
find-written m k d capacity h = ground (arith, bytes_eq_self k)

find-written_other :
    (m : Memory) (k d j : List ℕ) (capacity : ℕ)
    → j ≢ k
    → find ((k, d) ∷ m) j capacity ≡ find m j capacity
unfolding find
find-written_other m k d j capacity h = ground (arith, eq_of-bytes_eq k j)

pub memory-IsDurable : IsDurable memory
memory-IsDurable = record {
  read_reports = find-reports;
  read-write = λ m k d capacity _ h. find-written m k d capacity h;
  read-write_other = λ m k d j capacity h. find-written_other m k d j capacity h;
  read-erase = λ m k capacity _. find-discard m k capacity;
  read-erase_other = λ m k j capacity h. find-discard_other m k j capacity h;
}

abbrev pub home : Ssid
home = record { bytes = b'h' ∷ b'o' ∷ b'm' ∷ b'e' ∷ replicate 28 0; size = 4 }

pub home-IsSsid : IsSsid home
home-IsSsid = record { full = refl; within = omega arith; are_bytes = ground arith }

abbrev pub ip : ℕ → Ipv4Address
ip n = record { byte0 = 192; byte1 = 168; byte2 = 1; byte3 = n }

abbrev pub home_static : StaticIpv4
home_static = record {
  address = ip 20;
  gateway = ip 1;
  dns1 = ip 1;
  dns2 = ip 2;
  prefix_length = 24;
  has_dns2 = true;
}

pub home_static-IsAddressed : IsAddressed home_static
home_static-IsAddressed = record {
  address_ip = record {
    byte0_fits = omega arith;
    byte1_fits = omega arith;
    byte2_fits = omega arith;
    byte3_fits = omega arith;
  };
  gateway_ip = record {
    byte0_fits = omega arith;
    byte1_fits = omega arith;
    byte2_fits = omega arith;
    byte3_fits = omega arith;
  };
  dns1_ip = record {
    byte0_fits = omega arith;
    byte1_fits = omega arith;
    byte2_fits = omega arith;
    byte3_fits = omega arith;
  };
  dns2_ip = record {
    byte0_fits = omega arith;
    byte1_fits = omega arith;
    byte2_fits = omega arith;
    byte3_fits = omega arith;
  };
}

abbrev pub home_config : ConnectionConfig
home_config = record {
  ssid = home;
  security = AuthMode.wpa2_personal;
  hidden = false;
  ip_mode = IpMode.static_ipv4;
  static_ipv4 = home_static;
  mac_policy = MacPolicy.device;
}

abbrev pub home_profile : ProfileSettings
home_profile = record { connection = home_config; auto_connect = true }

pub home_profile-IsStorable : IsStorable home_profile
unfolding auth_code ip_mode_code mac_policy_code
home_profile-IsStorable = record {
  ssid = home-IsSsid;
  nonempty = omega arith;
  security = omega arith;
  ip_mode = omega arith;
  mac_policy = omega arith;
  addresses = home_static-IsAddressed;
  prefix = omega arith;
}

-- The passphrase "password".
abbrev pub passphrase : Credentials
passphrase = record {
  encoding = CredentialEncoding.passphrase;
  bytes = b'p' ∷ b'a' ∷ b's' ∷ b's' ∷ b'w' ∷ b'o' ∷ b'r' ∷ b'd' ∷ replicate 56 0;
  size = 8;
}

pub passphrase-IsSecret : IsSecret passphrase
unfolding encoding_code
passphrase-IsSecret = record {
  full = refl;
  within = omega arith;
  are_bytes = ground arith;
  encoding = omega arith;
}

abbrev pub replacing : CredentialUpdate
replacing = record { intent = CredentialIntent.replace; replacement = passphrase }
