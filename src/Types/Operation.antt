-- ===== src/Types/Operation.antt =====
-- src/roo_wifi/operation.h.
use roo_wifi.Base.{ℕ, Bool, false, ℤ, pos}
use roo_wifi.Types.Results.{Status}

-- enum class OperationKind : uint8_t
pub data OperationKind : Type 0 where
  enable scan connect disconnect : OperationKind

abbrev pub kind_eq : OperationKind → OperationKind → Bool
kind_eq OperationKind.enable OperationKind.enable = Bool.true
kind_eq OperationKind.scan OperationKind.scan = Bool.true
kind_eq OperationKind.connect OperationKind.connect = Bool.true
kind_eq OperationKind.disconnect OperationKind.disconnect = Bool.true
kind_eq _ _ = false

-- enum class ConnectionFailure : uint8_t
pub data ConnectionFailure : Type 0 where
  none transient network_not_found authentication incompatible_security : ConnectionFailure
  connection_timeout address_timeout : ConnectionFailure

-- struct OperationResult
pub record OperationResult : Type 0 where
  pub id : ℕ
  pub kind : OperationKind
  pub status : Status
  pub native_code : ℤ
  pub has_native_code : Bool
  pub failure : ConnectionFailure

abbrev pub no_operation : OperationResult
no_operation = record {
  id = 0;
  kind = OperationKind.scan;
  status = Status.ok;
  native_code = pos 0;
  has_native_code = false;
  failure = ConnectionFailure.none;
}
