-- ===== src/Tests/Station.antt =====
-- The controller over the adapter of a willing station and the store in memory.
use roo_wifi.Base.{◌+◌, ◌*◌, ◌^◌, ◌≤◌, ◌<◌, ◌≡◌, refl, true, not, List, [], ◌∷◌, ◌==◌, arith}
use roo_wifi.Types.{
  Status, is_ok, auth_code, ip_mode_code, mac_policy_code, encoding_code, done, Credentials,
  CredentialIntent, ConnectionFailure, OperationKind, OperationResult, no_operation,
}
use roo_wifi.Configuration.{
  validate, validate_support, is_malformed, bad_static, is_unicast, address, is_reserved,
  validate_secret, validate_personal, has_unprintable,
}
use roo_wifi.FieldStore.{chosen_secret}
use roo_wifi.FieldStore.SaveLoad.{stored_secret}
use roo_wifi.Codec.RoundTrip.{clear_profile}
use roo_wifi.Ordered.Station.{adapter}
use roo_wifi.Ordered.Commands as Commands
use roo_wifi.Control.State.{default_options, Transition, Target, Controller, controller}
use roo_wifi.Control.Retry.{base_delay, delay_spread, retry_delay}
use roo_wifi.Control.Events.{on_operation_finished}
use roo_wifi.Control.Diagram.{Step, view, IsOrderly}
use roo_wifi.Control.Runs.{take_step, take_steps, take_steps-IsOrderly}
use roo_wifi.Control.RetryBounds.{retry_delay_bounds}
use roo_wifi.Control.Completion.{on_operation_finished_twice}
use roo_wifi.Control.Faults.{IsHalted, take_step_silent}
use roo_wifi.Control.Requests as Requests
use roo_wifi.Control.Intents.{request_connection_twice}
use roo_wifi.Control.Parts.{Platform, ordered_interface, field_store, load_profile-save_profile}
use roo_wifi.Tests.Data.{
  memory, memory-IsDurable, home, home_profile, home_profile-IsStorable, passphrase,
  passphrase-IsSecret, replacing,
}
use roo_wifi.Tests.Fields.{succeeds}
use roo_wifi.Tests.Radio.{willing}

abbrev platform : Platform memory
platform = record {
  begin = λ m. (Status.ok, m);
  read_enabled = λ m. done true;
  write_enabled = λ m enabled. (Status.ok, m);
}

abbrev Station : Type 0
Station = Controller (ordered_interface willing) (field_store memory platform)

abbrev fresh_station : Station
fresh_station = controller (adapter willing tt) [] 0 default_options 12345

fresh-IsOrderly : IsOrderly (view fresh_station)
unfolding view controller
fresh-IsOrderly = ground arith

abbrev day : List Step
day =
    Step.begins ∷ Step.executes ∷ Step.waits 1000 ∷ Step.scans ∷ Step.executes ∷ Step.times_out ∷ []

take_steps-IsOrderly_example : IsOrderly (view (take_steps day fresh_station))
take_steps-IsOrderly_example = take_steps-IsOrderly day fresh_station fresh-IsOrderly

retry_delay_bounds_example :
    (1 ≤ retry_delay default_options.retry ConnectionFailure.transient 1 12345)
    × (retry_delay default_options.retry ConnectionFailure.transient 1 12345 < 2 ^ 32)
    × (2
          * delay_spread default_options.retry
              (base_delay default_options.retry ConnectionFailure.transient 1)
        ≤ base_delay default_options.retry ConnectionFailure.transient 1)
    × (base_delay default_options.retry ConnectionFailure.transient 1
            + delay_spread default_options.retry
                (base_delay default_options.retry ConnectionFailure.transient 1)
          < 2 ^ 32
        → (base_delay default_options.retry ConnectionFailure.transient 1
            ≤ retry_delay default_options.retry ConnectionFailure.transient 1 12345
              + delay_spread default_options.retry
                  (base_delay default_options.retry ConnectionFailure.transient 1))
          × (retry_delay default_options.retry ConnectionFailure.transient 1 12345
              ≤ base_delay default_options.retry ConnectionFailure.transient 1
                + delay_spread default_options.retry
                    (base_delay default_options.retry ConnectionFailure.transient 1)))
retry_delay_bounds_example =
    retry_delay_bounds default_options.retry ConnectionFailure.transient 1 12345

-- A station that waits for the end of its connection 4.
abbrev connecting_station : Station
connecting_station = record fresh_station {
  running = true;
  initialized = true;
  transition = Transition.connect;
  station_id = 4;
  next_id = 5;
}

connecting-IsOrderly : IsOrderly (view connecting_station)
unfolding view controller
connecting-IsOrderly = ground arith

abbrev connected : OperationResult
connected = record no_operation { id = 4; kind = OperationKind.connect }

on_operation_finished_twice_example :
    on_operation_finished connected (on_operation_finished connected connecting_station)
    ≡ on_operation_finished connected connecting_station
on_operation_finished_twice_example =
    on_operation_finished_twice connected connecting_station connecting-IsOrderly

abbrev faulted_station : Station
faulted_station = record fresh_station { running = true; faulted = true }

faulted-IsHalted : IsHalted faulted_station
unfolding controller
faulted-IsHalted = ground arith

take_step_silent_example :
    ((take_step Step.executes faulted_station).radio ≡ faulted_station.radio)
    × IsHalted (take_step Step.executes faulted_station)
take_step_silent_example = take_step_silent Step.executes faulted_station faulted-IsHalted (λ e. cc)

abbrev running_station : Station
running_station = record fresh_station { running = true }

saves_running : is_ok (Requests.save_profile home_profile replacing running_station).0 ≡ true
unfolding Requests.save_profile Requests.profiles_changed controller
saves_running = succeeds

load_profile-save_profile_example :
    (secret : Credentials) × (chosen_secret memory [] home CredentialIntent.replace passphrase
      ≡ done secret)
    × (Requests.load_profile home (Requests.save_profile home_profile replacing running_station).1
        ≡ done (record {
          settings = clear_profile home_profile;
          has_credentials = not ((stored_secret CredentialIntent.replace secret).size == 0);
        }))
unfolding controller
load_profile-save_profile_example =
    load_profile-save_profile memory platform memory-IsDurable home_profile replacing
      running_station home_profile-IsStorable passphrase-IsSecret saves_running

-- A station that may connect.
abbrev enabled_station : Station
enabled_station = record running_station {
  state = record running_station.state { desired = Target.disconnected };
}

grants_home :
    is_ok
      (Requests.request_connection home_profile.connection passphrase home true enabled_station).0
    ≡ true
unfolding Requests.request_connection Requests.connection_admission Requests.admission
    Requests.support controller is_ok validate validate_support is_malformed bad_static is_unicast
    address is_reserved validate_secret validate_personal has_unprintable auth_code ip_mode_code
    mac_policy_code encoding_code Commands.support
grants_home = refl

request_connection_twice_example :
    let first =
      Requests.request_connection home_profile.connection passphrase home true enabled_station in
    Requests.request_connection home_profile.connection passphrase home true first.1
    ≡ (Status.ok, first.1)
request_connection_twice_example =
    request_connection_twice home_profile.connection passphrase home true enabled_station
      (omega arith) grants_home
