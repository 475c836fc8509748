-- ===== src/BinaryState/Tests.antt =====
-- A lamp on an empty flash.
use io_tsmart_sys_core.Base.{
  true, false, ◌≡◌, ◌≢◌, refl, arith, List, [], ◌∷◌, none, some, Text, codes, text_eq,
}
use io_tsmart_sys_core.BinaryState.Records.{
  copy_field, pending_count, compute_checksum, count_active, field_is_terminated, matches, mix,
  record_is_valid, slot_differs, validate_snapshot, record_bytes, find_record_index, c_str,
}
use io_tsmart_sys_core.BinaryState.Nvs.{
  esp_timeout, result_ok, empty_snapshot, load_snapshot, load_blob,
}
use io_tsmart_sys_core.BinaryState.Store.{
  record_of, with_record, record_outcome, write_and_commit, writer_step_at, Provider, waiting,
  writing, try_get, lookup, request_save, save, save_at, place, first_free, WriteCodes, writer_step,
  load, activate_writer,
}
use io_tsmart_sys_core.BinaryState.View.{NoZero}
use io_tsmart_sys_core.BinaryState.Save.{Accepted, request_save-Accepted}
use io_tsmart_sys_core.BinaryState.Durable.{
  step, Event, activates, saves, writer_runs, run, boot, reboot_recovers,
}
use io_tsmart_sys_core.BinaryState.Drain.{drain, writes_fine, save_committed}

abbrev pub lamp : Text
lamp = codes "lamp"

abbrev pub kind : Text
kind = codes "Light"

pub lamp-NoZero : NoZero lamp
lamp-NoZero = ground arith

pub kind-NoZero : NoZero kind
kind-NoZero = ground arith

abbrev pub ready : Provider
ready = record {
  committed = empty_snapshot;
  desired = empty_snapshot;
  cache_loaded = true;
  has_mutex = true;
  writer_available = true;
  write_in_progress = false;
  writes = 0;
  commits = 0;
  failures = 0;
  last_error = result_ok;
  phase = waiting;
  notified = false;
  flash = none;
}

pub first_slot : place lamp kind ready.desired.records ≡ some 0
unfolding place find_record_index first_free
first_slot = refl

request_save-Accepted_example :
    Accepted lamp kind true ready (request_save (some lamp) (some kind) true ready)
request_save-Accepted_example =
    request_save-Accepted lamp kind true 0 ready lamp-NoZero kind-NoZero (omega arith) (omega arith)
      (omega arith) (omega arith) refl first_slot

nameless_refused : (request_save (some []) (some kind) true ready).1 ≢ result_ok
unfolding request_save
nameless_refused = λ e. cc

save_committed_example :
    (try_get (some lamp) (some kind) (request_save (some lamp) (some kind) true ready).0
      ≡ try_get (some lamp) (some kind) ready)
    × (try_get
          (some lamp)
          (some kind)
          (drain writes_fine (request_save (some lamp) (some kind) true ready).0)
        ≡ some true)
save_committed_example =
    save_committed lamp kind true 0 ready lamp-NoZero kind-NoZero (omega arith) (omega arith)
      (omega arith) (omega arith) refl refl refl refl first_slot

abbrev commit_fails : WriteCodes
commit_fails = record writes_fine { commit = esp_timeout }

abbrev busy : Provider
busy = record ready { phase = writing empty_snapshot; write_in_progress = true }

-- On, written; then off, with a commit that fails.
abbrev history : List Event
history =
    activates true true
    ∷ saves (some lamp) (some kind) true
    ∷ writer_runs writes_fine
    ∷ writer_runs writes_fine
    ∷ writer_runs writes_fine
    ∷ writer_runs writes_fine
    ∷ saves (some lamp) (some kind) false
    ∷ writer_runs commit_fails
    ∷ writer_runs commit_fails
    ∷ writer_runs commit_fails
    ∷ []

reboot_recovers_example :
    ((boot (run history (boot none)).flash).committed ≡ (run history (boot none)).committed)
    × (try_get (some lamp) (some kind) (boot (run history (boot none)).flash)
        ≡ try_get (some lamp) (some kind) (run history (boot none)))
reboot_recovers_example =
    reboot_recovers none history (some lamp) (some kind) tt
      (lamp-NoZero, kind-NoZero, (lamp-NoZero, kind-NoZero, tt))

still_on : try_get (some lamp) (some kind) (boot (run history (boot none)).flash) ≡ some true
unfolding run boot try_get lookup find_record_index load_snapshot step writer_step request_save save
    activate_writer save_at place first_free record_of copy_field pending_count with_record text_eq
    c_str load_blob compute_checksum count_active field_is_terminated matches mix record_is_valid
    slot_differs validate_snapshot load record_outcome write_and_commit writer_step_at record_bytes
still_on = refl
