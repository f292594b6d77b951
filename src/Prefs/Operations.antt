-- ===== src/Prefs/Operations.antt =====
-- Class PrefsStore of src/roo_wifi/hal/prefs/prefs_store.cpp.
use roo_wifi.Base.{ℕ, Bool, not, List, [], ◌∷◌, if◌then◌else◌}
use mathlib.Core.Option.{Option, none, some}
use roo_wifi.Types.{Status, is_ok, Result, done, err}
use roo_wifi.FieldStore.Backend.{Backend}
use roo_wifi.Control.Parts.{Platform}
use roo_wifi.Prefs.Library.{ReadResult, WriteResult, ClearResult, EnumerateResult, Mode, Collection}

-- Read of prefs_store.cpp
unfoldable pub read_status : ReadResult → Status
read_status ReadResult.ok = Status.ok
read_status ReadResult.not_found = Status.not_found
read_status ReadResult.wrong_type = Status.corrupt
read_status ReadResult.other = Status.storage_failure

-- Enumerate of prefs_store.cpp
unfoldable pub enumerate_status : EnumerateResult → Status
enumerate_status EnumerateResult.ok = Status.ok
enumerate_status EnumerateResult.stopped = Status.stopped
enumerate_status EnumerateResult.unsupported = Status.unsupported
enumerate_status EnumerateResult.other = Status.storage_failure

-- `result == roo_prefs::WriteResult::kOk ? Status::kOk : Status::kStorageFailure`
unfoldable pub write_status : WriteResult → Status
write_status WriteResult.ok = Status.ok
write_status WriteResult.other = Status.storage_failure

unfoldable pub clear_status : ClearResult → Status
clear_status ClearResult.ok = Status.ok
clear_status ClearResult.other = Status.storage_failure

-- The key "enabled".
abbrev pub enabled_key : List ℕ
enabled_key = b'e' ∷ b'n' ∷ b'a' ∷ b'b' ∷ b'l' ∷ b'e' ∷ b'd' ∷ []

module _ (l : Collection) where
  open l use {
    Contents, active, read_bool, write_bool, read_bytes, write_bytes, is_key, clear, for_each_key,
  }

  -- PrefsStore::begin
  unfoldable pub begin : Contents → Status × Contents
  begin m = (if active Mode.read_write m then Status.ok else Status.storage_failure, m)

  -- PrefsStore::readEnabled
  unfoldable pub read_enabled : Contents → Result Bool
  read_enabled m =
      let (result, value) = read_bool m enabled_key in
      let status = read_status result in
      if not (active Mode.read_only m)
      then err Status.storage_failure
      else if is_ok status
      then done value
      else err status

  -- PrefsStore::writeEnabled
  unfoldable pub write_enabled : Contents → Bool → Status × Contents
  write_enabled m enabled =
      let (result, m') = write_bool m enabled_key enabled in
      if not (active Mode.read_write m)
      then (Status.storage_failure, m)
      else (write_status result, m')

  -- PrefsStore::readField
  unfoldable pub read_field : Contents → List ℕ → ℕ → Result (List ℕ)
  read_field m key capacity =
      let (result, bytes) = read_bytes m key capacity in
      let status = read_status result in
      if not (active Mode.read_only m)
      then err Status.storage_failure
      else if is_ok status
      then done bytes
      else err status

  -- PrefsStore::writeField
  unfoldable pub write_field : Contents → List ℕ → List ℕ → Status × Contents
  write_field m key bytes =
      let (result, m') = write_bytes m key bytes in
      if not (active Mode.read_write m)
      then (Status.storage_failure, m)
      else (write_status result, m')

  -- PrefsStore::eraseField
  unfoldable pub erase_field : Contents → List ℕ → Status × Contents
  erase_field m key =
      let (result, m') = clear m key in
      if not (active Mode.read_write m)
      then (Status.storage_failure, m)
      else if not (is_key m key)
      then (Status.ok, m)
      else (clear_status result, m')

  -- PrefsStore::enumerateFields, with a visitor or nullptr.
  unfoldable pub enumerate_fields :
      (C : Type 0) → Contents → Option (C → List ℕ → Bool × C) → C → Status × C
  enumerate_fields C m none context = (Status.invalid_argument, context)
  enumerate_fields C m (some visitor) context =
      let (result, context') = for_each_key C m visitor context in
      (enumerate_status result, context')

-- The virtual functions of FieldStore that PrefsStore implements.
abbrev pub prefs : Collection → Backend
prefs l = record {
  Fields = l.Contents;
  read_field = read_field l;
  write_field = write_field l;
  erase_field = erase_field l;
  enumerate_fields = λ C m visitor. enumerate_fields l C m (some visitor);
}

-- The rest of class Store.
abbrev pub prefs_platform : (l : Collection) → Platform (prefs l)
prefs_platform l = record {
  begin = begin l;
  read_enabled = read_enabled l;
  write_enabled = write_enabled l;
}
