-- ===== src/BinaryState/Store.antt =====
-- `EspNvsBinaryCapabilityStateProvider` at work: `activateWriter`, `tryGet`, `requestSave` and the
-- writer task, whose loop is cut into the steps between which other tasks may run. The mutex is
-- taken without a time limit, so taking it does not fail.
use io_tsmart_sys_core.Base.{
  ℕ, suc, ◌+◌, Bool, true, false, not, ◌||◌, List, [], ◌∷◌, Option, none, some, Text, length,
  get_or, set, leb, ◌==◌, if◌then◌else◌, u32,
}
use io_tsmart_sys_core.BinaryState.Records.{
  StoredRecord, Snapshot, zero_record, name_len, type_len, storage_version, copy_field,
  compute_checksum, find_record_index, pending_count,
}
use io_tsmart_sys_core.BinaryState.Nvs.{
  StateResult, result_ok, invalid_arg, invalid_state, no_mem, overflow, storage_write_fail, EspErr,
  esp_ok, map_esp_err, Blob, current, ReadCodes, load_snapshot, empty_snapshot,
}

-- Where the writer task stands: it waits for a notification, is about to look for pending work, or
-- writes the snapshot that it copied.
pub data Phase : Type 0 where
  waiting draining : Phase
  writing : Snapshot → Phase

-- `flash` is what survives a reboot, and `notified` the task's notification.
pub record Provider : Type 0 where
  pub committed : Snapshot
  pub desired : Snapshot
  pub cache_loaded : Bool
  pub has_mutex : Bool
  pub writer_available : Bool
  pub write_in_progress : Bool
  pub writes : ℕ
  pub commits : ℕ
  pub failures : ℕ
  pub last_error : StateResult
  pub phase : Phase
  pub notified : Bool
  pub flash : Option Blob

-- A new provider on what flash holds.
abbrev pub new : Option Blob → Provider
new flash = record {
  committed = record { version = 0; checksum = 0; records = empty_snapshot.records };
  desired = record { version = 0; checksum = 0; records = empty_snapshot.records };
  cache_loaded = false;
  has_mutex = false;
  writer_available = false;
  write_in_progress = false;
  writes = 0;
  commits = 0;
  failures = 0;
  last_error = result_ok;
  phase = waiting;
  notified = false;
  flash = flash;
}

unfoldable pub load : ReadCodes → Provider → Provider × StateResult
load codes p =
    let (snapshot, result) = load_snapshot codes p.flash in
    (record p { committed = snapshot; desired = snapshot; cache_loaded = true }, result)

-- The two flags say whether the mutex and the task can be created.
unfoldable pub activate_writer : Bool → Bool → Provider → Provider × StateResult
activate_writer mutex_made task_made p =
    if p.writer_available
    then (p, result_ok)
    else if not (p.has_mutex || mutex_made)
    then (record p { last_error = no_mem }, no_mem)
    else if not task_made
    then (record p { has_mutex = true; last_error = no_mem }, no_mem)
    else (record p { has_mutex = true; writer_available = true }, result_ok)

-- The state that a list of records gives an identity.
unfoldable pub lookup : Text → Text → List StoredRecord → Option Bool
lookup name type rs = elim (find_record_index name type rs) [
  | none ↦ none
  | some i ↦ some (not ((get_or rs i zero_record).is_on == 0))
]

unfoldable pub try_get : Option Text → Option Text → Provider → Option Bool
try_get none type p = none
try_get (some name) none p = none
try_get (some name) (some type) p =
    if p.cache_loaded then lookup name type p.committed.records else none

unfoldable pub first_free : List StoredRecord → Option ℕ
first_free [] = none
first_free (r ∷ rs) =
    let later = first_free rs in
    if r.used == 0 then some 0 else elim later [ none ↦ none | some i ↦ some (suc i) ]

unfoldable pub place : Text → Text → List StoredRecord → Option ℕ
place name type rs = elim (find_record_index name type rs) [
  | none ↦ first_free rs
  | some i ↦ some i
]

abbrev pub flag : Bool → ℕ
flag true = 1
flag false = 0

unfoldable pub record_of : Text → Text → Bool → Option StoredRecord
record_of name type is_on = elim (copy_field name_len name) [
  | none ↦ none
  | some n ↦ elim (copy_field type_len type) [
    | none ↦ none
    | some t ↦ some (record { capability_name = n; type = t; is_on = flag is_on; used = 1 })
  ]
]

unfoldable pub with_record : ℕ → StoredRecord → Snapshot → Snapshot
with_record i r s = record stored { checksum = compute_checksum stored }
  where
    stored : Snapshot
    stored = record s { version = storage_version; records = set s.records i r }

-- Behind the checks of the identity.
unfoldable pub save_at : Text → Text → Bool → Option ℕ → Provider → Provider × StateResult
save_at name type is_on none p = (p, overflow)
save_at name type is_on (some i) p = elim (record_of name type is_on) [
  | none ↦ (p, invalid_arg)
  | some r ↦ (record p { desired = with_record i r p.desired; notified = true }, result_ok)
]

unfoldable pub save : Text → Text → Bool → Provider → Provider × StateResult
save name type is_on p =
    if leb name_len (length name) || leb type_len (length type)
    then (p, invalid_arg)
    else if not p.writer_available
    then (p, invalid_state)
    else save_at name type is_on (place name type p.desired.records) p

-- `requestSave`; a null pointer is `none`.
unfoldable pub request_save : Option Text → Option Text → Bool → Provider → Provider × StateResult
request_save (some (n ∷ ns)) (some (t ∷ ts)) is_on p = save (n ∷ ns) (t ∷ ts) is_on p
request_save _ _ is_on p = (p, invalid_arg)

-- The codes of `open`, `setBlob` and `commit` in one write.
pub record WriteCodes : Type 0 where
  pub open_namespace : EspErr
  pub set_blob : EspErr
  pub commit : EspErr

-- Only a successful commit changes what a reboot finds.
unfoldable pub write_and_commit : WriteCodes → Snapshot → Provider → Provider × StateResult
write_and_commit codes attempt p =
    let opened = record p { writes = u32 (p.writes + 1) } in
    elim codes.open_namespace [
      | esp_ok ↦ elim codes.set_blob [
        | esp_ok ↦ elim codes.commit [
          | esp_ok ↦ (record opened { flash = some (current attempt) }, result_ok)
          | _ ↦ (opened, storage_write_fail)
        ]
        | _ ↦ (opened, storage_write_fail)
      ]
      | err ↦ (p, map_esp_err err)
    ]

-- Behind the write, under the lock again.
unfoldable pub record_outcome : Snapshot → Provider × StateResult → Provider
record_outcome attempt (p, result_ok) = record p {
  write_in_progress = false;
  committed = attempt;
  commits = u32 (p.commits + 1);
  last_error = result_ok;
  phase = draining;
}
record_outcome attempt (p, failure) = record p {
  write_in_progress = false;
  failures = u32 (p.failures + 1);
  last_error = failure;
  phase = waiting;
}

-- One step of the writer task, with what the NVS functions would return in it.
unfoldable pub writer_step_at : Phase → WriteCodes → Provider → Provider
unfolding write_and_commit record_outcome
writer_step_at waiting codes p =
    if p.notified then record p { phase = draining; notified = false } else p
writer_step_at draining codes p =
    if pending_count p.desired.records p.committed.records == 0
    then record p { phase = waiting }
    else record p { phase = writing p.desired; write_in_progress = true }
writer_step_at (writing attempt) codes p = record_outcome attempt (write_and_commit codes attempt p)

unfoldable pub writer_step : WriteCodes → Provider → Provider
unfolding writer_step_at
writer_step codes p = writer_step_at p.phase codes p
