-- ===== src/BinaryState/Nvs.antt =====
-- Reading the snapshot at boot. What the NVS functions return in one call is a record of their
-- codes; the blob that flash holds is the snapshot of either version, or has another size.
use io_tsmart_sys_core.Base.{◌-◌, ℕ, not, ◌++◌, Option, none, some, replicate, ◌==◌, if◌then◌else◌}
use io_tsmart_sys_core.BinaryState.Records.{
  Snapshot, zero_record, max_records, legacy_max_records, storage_version, legacy_storage_version,
  compute_checksum, validate_snapshot, validate_legacy_snapshot,
}

-- The members of `StateResult` that the provider returns.
pub data StateResult : Type 0 where
  result_ok invalid_arg invalid_state no_mem timed_out not_found overflow storage_corrupt
        storage_version_mismatch storage_write_fail storage_read_fail :
      StateResult

pub data EspErr : Type 0 where
  esp_ok nvs_not_found esp_no_mem esp_invalid_arg esp_invalid_state esp_timeout : EspErr
  esp_other : ℕ → EspErr

unfoldable pub map_esp_err : EspErr → StateResult
map_esp_err esp_ok = result_ok
map_esp_err nvs_not_found = not_found
map_esp_err esp_no_mem = no_mem
map_esp_err esp_invalid_arg = invalid_arg
map_esp_err esp_invalid_state = invalid_state
map_esp_err esp_timeout = timed_out
map_esp_err (esp_other n) = storage_read_fail

-- What the key holds.
pub data Blob : Type 0 where
  current legacy : Snapshot → Blob
  other_size : ℕ → Blob

-- The codes of `flashInit`, `open`, the size query and the read.
pub record ReadCodes : Type 0 where
  pub flash_init : EspErr
  pub open_namespace : EspErr
  pub query : EspErr
  pub read : EspErr

-- `memset` to zero, and the version.
abbrev pub empty_snapshot : Snapshot
empty_snapshot = record {
  version = storage_version;
  checksum = 0;
  records = replicate max_records zero_record;
}

-- The records of the old version, in front of empty slots.
unfoldable pub migrated : Snapshot → Snapshot
migrated old = record moved { checksum = compute_checksum moved }
  where
    moved : Snapshot
    moved = record empty_snapshot {
      records = old.records ++ replicate (max_records - legacy_max_records) zero_record;
    }

load_legacy : Snapshot → Snapshot × StateResult
unfolding migrated
load_legacy old =
    if not (old.version == legacy_storage_version)
    then (empty_snapshot, storage_version_mismatch)
    else if not (validate_legacy_snapshot old)
    then (empty_snapshot, storage_corrupt)
    else (migrated old, result_ok)

load_current : Snapshot → Snapshot × StateResult
load_current loaded =
    if not (loaded.version == storage_version)
    then (empty_snapshot, storage_version_mismatch)
    else if not (validate_snapshot loaded)
    then (empty_snapshot, storage_corrupt)
    else (loaded, result_ok)

-- Behind the size query.
unfoldable pub load_blob : EspErr → Blob → Snapshot × StateResult
unfolding load_legacy load_current
load_blob read (other_size n) = (empty_snapshot, storage_corrupt)
load_blob esp_ok (legacy old) = load_legacy old
load_blob esp_ok (current loaded) = load_current loaded
load_blob err _ = (empty_snapshot, map_esp_err err)

abbrev failed_or_absent : EspErr → Snapshot × StateResult
failed_or_absent nvs_not_found = (empty_snapshot, result_ok)
failed_or_absent err = (empty_snapshot, map_esp_err err)

-- Behind the opened namespace; a key that is not there makes the query answer so.
load_key : ReadCodes → Option Blob → Snapshot × StateResult
load_key codes none = elim codes.query [
  | esp_ok ↦ failed_or_absent nvs_not_found
  | err ↦ failed_or_absent err
]
load_key codes (some blob) = elim codes.query [
  | esp_ok ↦ load_blob codes.read blob
  | err ↦ failed_or_absent err
]

-- `loadSnapshot`: the snapshot that both `_committed` and `_desired` hold after it, and its result.
unfoldable pub load_snapshot : ReadCodes → Option Blob → Snapshot × StateResult
unfolding load_key
load_snapshot codes flash = elim codes.flash_init [
  | esp_ok ↦ elim codes.open_namespace [
    | esp_ok ↦ load_key codes flash
    | err ↦ failed_or_absent err
  ]
  | err ↦ (empty_snapshot, map_esp_err err)
]
