-- ===== src/Binary/Nvs.antt =====
-- The NVS provider as the storage of the binary capabilities.
pub mod Desired
use io_tsmart_sys_core.Base.{
  is_empty, ℕ, ◌<◌, true, false, ◌≡◌, ◌≢◌, refl, arith, [], ◌∷◌, some, Text, text_eq_refl,
  text_eq_iff, length, if◌then◌else◌,
}
use io_tsmart_sys_core.Capability.{update_state}
use io_tsmart_sys_core.Hardware.{HardwareAdapter, StateProvider}
use io_tsmart_sys_core.BinaryState.Store.{Provider, waiting, try_get, request_save, place}
use io_tsmart_sys_core.BinaryState.View.{NoZero}
use io_tsmart_sys_core.BinaryState.Drain.{drain, writes_fine, save_committed}
use io_tsmart_sys_core.Binary.{Binary, read_confirmed_state, request_persist_if_stable, handle}

abbrev pub nvs : StateProvider
nvs = record {
  State = Provider;
  try_get = λ name type p. try_get (some name) (some type) p;
  request_save = λ name type v p. (request_save (some name) (some type) v p).0;
}

module _ (A : HardwareAdapter) where
  -- A pass that meets the hardware on, where off was published and noted as stable, asks the storage.
  handle-request_save :
      (b : Binary A nvs) (p : Provider)
      → b.storage ≡ some p
      → b.transient_cycle ≡ false
      → b.last_stable_is_on ≡ false
      → 0 < length b.capability.capability_name
      → read_confirmed_state A nvs b ≡ b.on_value
      → b.capability.value ≢ b.on_value
      → (handle A nvs b).storage
        ≡ some (request_save (some b.capability.capability_name) (some b.capability.type) true p).0
  unfolding handle request_persist_if_stable update_state is_empty
  handle-request_save b p present steady off named confirmed changed = ground (
    arith,
    named_save b.capability.capability_name b.capability.type p named,
    text_eq_iff (read_confirmed_state A nvs b) b.capability.value,
    text_eq_refl b.on_value,
  )
    where
      named_save :
          (name type : Text) (q : Provider)
          → 0 < length name
          → (if is_empty name then some q else some (nvs.request_save name type true q))
            ≡ some (request_save (some name) (some type) true q).0
      named_save [] type q h = absurd (omega arith)
      named_save (c ∷ cs) type q h = refl

  -- A lamp that is found switched on is committed as on: where off was published and noted as
  -- stable, the identity fits, and the provider's writer is idle with a slot for it, one pass of the
  -- capability followed by the writer's run with NVS calls that succeed makes `tryGet` answer on.
  pub switched_on_is_committed :
      (b : Binary A nvs) (p : Provider) (i : ℕ)
      → b.storage ≡ some p
      → b.transient_cycle ≡ false
      → b.last_stable_is_on ≡ false
      → read_confirmed_state A nvs b ≡ b.on_value
      → b.capability.value ≢ b.on_value
      → NoZero b.capability.capability_name
      → NoZero b.capability.type
      → 0 < length b.capability.capability_name
      → 0 < length b.capability.type
      → length b.capability.capability_name < 64
      → length b.capability.type < 32
      → p.writer_available ≡ true
      → p.cache_loaded ≡ true
      → p.phase ≡ waiting
      → length p.desired.records ≡ length p.committed.records
      → place b.capability.capability_name b.capability.type p.desired.records ≡ some i
      → (q : Provider) × ((handle A nvs b).storage ≡ some q)
        × (try_get
              (some b.capability.capability_name)
              (some b.capability.type)
              (drain writes_fine q)
            ≡ some true)
  switched_on_is_committed b p i present steady off confirmed changed hn ht pn pt ln lt ready cached
        idle size slot =
      (
        (request_save (some b.capability.capability_name) (some b.capability.type) true p).0,
        handle-request_save b p present steady off pn confirmed changed,
        (save_committed b.capability.capability_name b.capability.type true i p hn ht pn pt ln lt
            ready cached idle size slot).1,
      )
