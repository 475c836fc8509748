-- ===== src/BinaryState/Durable.antt =====
-- Saves and the writer's steps in any order, and a reboot at any point between them.
use io_tsmart_sys_core.Base.{
  ℕ, Bool, true, ◌≡◌, refl, arith, ◌∙◌, ◌⊎◌, inl, inr, List, [], ◌∷◌, Option, none, some, Text,
  Option-cases, ap, sym,
}
use io_tsmart_sys_core.BinaryState.Records.{Snapshot, compute_checksum, pending_count}
use io_tsmart_sys_core.BinaryState.Nvs.{map_esp_err, Blob, load_snapshot}
use io_tsmart_sys_core.BinaryState.Store.{
  try_get, try_get, Provider, Phase, waiting, draining, writing, new, load, activate_writer,
  request_save, save, save_at, place, record_of, with_record, WriteCodes, write_and_commit,
  record_outcome, writer_step, writer_step_at,
}
use io_tsmart_sys_core.BinaryState.View.{NoZero}
use io_tsmart_sys_core.BinaryState.Boot.{
  reads_fine, HasShape, load_snapshot-IsSane, load_snapshot-current,
}
use io_tsmart_sys_core.BinaryState.Valid.{
  IsSane, IsValid, record_of-valid, with_record-IsValid, pending_count_self,
}

-- A boot at which NVS can be read, whatever it holds.
unfoldable pub boot : Option Blob → Provider
unfolding load
boot flash = (load reads_fine (new flash)).0

-- What happens to a provider after the boot.
pub data Event : Type 0 where
  activates : Bool → Bool → Event
  saves : Option Text → Option Text → Bool → Event
  writer_runs : WriteCodes → Event

unfoldable pub step : Event → Provider → Provider
step (activates mutex_made task_made) p = (activate_writer mutex_made task_made p).0
step (saves name type is_on) p = (request_save name type is_on p).0
step (writer_runs codes) p = writer_step codes p

unfoldable pub run : List Event → Provider → Provider
run [] p = p
run (e ∷ es) p = run es (step e p)

abbrev NoZeroText : Option Text → Type 0
NoZeroText none = Unit {0}
NoZeroText (some t) = NoZero t

-- The arguments of the saves are C strings.
abbrev pub AreCStrings : List Event → Type 0
AreCStrings [] = Unit {0}
AreCStrings (saves name type is_on ∷ es) = NoZeroText name × NoZeroText type × AreCStrings es
AreCStrings (_ ∷ es) = AreCStrings es

-- What the writer is writing is valid, and so is what the capabilities want meanwhile.
abbrev InFlight : Phase → Snapshot → Type 0
InFlight (writing attempt) desired = IsValid attempt × IsValid desired
InFlight _ desired = Unit {0}

record IsDurable (p : Provider) : Type 0 where
  cached : p.cache_loaded ≡ true
  reboot : (load_snapshot reads_fine p.flash).0 ≡ p.committed
  sane : IsSane p.desired
  sum : (compute_checksum p.desired ≡ p.desired.checksum) ⊎ (p.desired ≡ p.committed)
  in_flight : InFlight p.phase p.desired

boot-IsDurable : (flash : Option Blob) → HasShape flash → IsDurable (boot flash)
unfolding boot
boot-IsDurable flash h = record {
  cached = refl;
  reboot = refl;
  sane = load_snapshot-IsSane flash h;
  sum = inr refl;
  in_flight = tt;
}

-- A save leaves the desired snapshot valid, or leaves all as it was.
save-IsDurable :
    (n t : ℕ) (ns ts : Text) (is_on : Bool) (o : Option ℕ) (p : Provider)
    → NoZero (n ∷ ns)
    → NoZero (t ∷ ts)
    → IsDurable p
    → IsDurable (save_at (n ∷ ns) (t ∷ ts) is_on o p).0
unfolding save_at
save-IsDurable n t ns ts is_on none p hn ht d = d
save-IsDurable n t ns ts is_on (some i) p hn ht d =
    elim (Option-cases (record_of (n ∷ ns) (t ∷ ts) is_on)) [
      | inl refused ↦ ground arith
      | inr (r, made) ↦
          let v =
            with_record-IsValid i r p.desired (record_of-valid n t ns ts is_on r hn ht made)
              d.sane in
          let w = stored p.phase (with_record i r p.desired) v d.in_flight in ground (arith, v, w)
    ]
  where
    stored : (k : Phase) (next : Snapshot) → IsValid next → InFlight k p.desired → InFlight k next
    stored waiting next v f = tt
    stored draining next v f = tt
    stored (writing attempt) next v f = (f.0, v)

request_save-IsDurable :
    (name type : Option Text) (is_on : Bool) (p : Provider)
    → NoZeroText name
    → NoZeroText type
    → IsDurable p
    → IsDurable (request_save name type is_on p).0
unfolding request_save save
request_save-IsDurable none type is_on p hn ht d = d
request_save-IsDurable (some []) type is_on p hn ht d = d
request_save-IsDurable (some (n ∷ ns)) none is_on p hn ht d = d
request_save-IsDurable (some (n ∷ ns)) (some []) is_on p hn ht d = d
request_save-IsDurable (some (n ∷ ns)) (some (t ∷ ts)) is_on p hn ht d =
    let o = place (n ∷ ns) (t ∷ ts) p.desired.records in
    ground (arith, save-IsDurable n t ns ts is_on o p hn ht d)

activate_writer-IsDurable :
    (mutex_made task_made : Bool) (p : Provider)
    → IsDurable p
    → IsDurable (activate_writer mutex_made task_made p).0
unfolding activate_writer
activate_writer-IsDurable mutex_made task_made p d = ground arith

finish-IsDurable :
    (attempt : Snapshot) (codes : WriteCodes) (p : Provider)
    → IsValid attempt
    → IsValid p.desired
    → IsDurable p
    → IsDurable (record_outcome attempt (write_and_commit codes attempt p))
unfolding record_outcome write_and_commit map_esp_err
finish-IsDurable attempt codes p v w d = ground (arith, load_snapshot-current attempt v)

writer_step_at-IsDurable :
    (k : Phase) (codes : WriteCodes) (p : Provider)
    → InFlight k p.desired
    → IsDurable p
    → IsDurable (writer_step_at k codes p)
unfolding writer_step_at
writer_step_at-IsDurable waiting codes p f d = ground arith
writer_step_at-IsDurable draining codes p f d = elim d.sum [
  | inl sum ↦ let v : IsValid p.desired = record { sane = d.sane; sum = sum } in ground (arith, v)
  | inr same ↦
      let nothing : pending_count p.desired.records p.committed.records ≡ 0 =
        ap (λ s. pending_count p.desired.records s.records) (sym same)
        ∙ pending_count_self p.desired.records in
      ground (arith, nothing)
]
writer_step_at-IsDurable (writing attempt) codes p f d = finish-IsDurable attempt codes p f.0 f.1 d

step-IsDurable :
    (e : Event) (p : Provider) → AreCStrings (e ∷ []) → IsDurable p → IsDurable (step e p)
unfolding step writer_step
step-IsDurable (activates mutex_made task_made) p h d =
    activate_writer-IsDurable mutex_made task_made p d
step-IsDurable (saves name type is_on) p h d = request_save-IsDurable name type is_on p h.0 h.1 d
step-IsDurable (writer_runs codes) p h d = writer_step_at-IsDurable p.phase codes p d.in_flight d

run-IsDurable :
    (es : List Event) (p : Provider) → AreCStrings es → IsDurable p → IsDurable (run es p)
unfolding run
run-IsDurable [] p h d = d
run-IsDurable (activates mutex_made task_made ∷ es) p h d =
    run-IsDurable es _ h (step-IsDurable (activates mutex_made task_made) p tt d)
run-IsDurable (saves name type is_on ∷ es) p h d =
    run-IsDurable es _ h.2 (step-IsDurable (saves name type is_on) p (h.0, h.1, tt) d)
run-IsDurable (writer_runs codes ∷ es) p h d =
    run-IsDurable es _ h (step-IsDurable (writer_runs codes) p tt d)

boot_committed :
    (flash : Option Blob)
    → ((boot flash).committed ≡ (load_snapshot reads_fine flash).0)
      × ((boot flash).cache_loaded ≡ true)
unfolding boot
boot_committed flash = (refl, refl)

try_get_same :
    (name type : Option Text) (p q : Provider)
    → p.committed ≡ q.committed
    → p.cache_loaded ≡ q.cache_loaded
    → try_get name type p ≡ try_get name type q
unfolding try_get
try_get_same none type p q e f = refl
try_get_same (some name) none p q e f = refl
try_get_same (some name) (some type) p q e f = ground arith

-- From any contents of flash, after any sequence of saves and writer steps, whether or not the NVS
-- calls in them fail, a reboot finds the snapshot that the provider held as committed, so that every
-- identity has the state that `tryGet` gave for it before the reboot.
pub reboot_recovers :
    (flash : Option Blob) (es : List Event) (name type : Option Text)
    → HasShape flash
    → AreCStrings es
    → ((boot (run es (boot flash)).flash).committed ≡ (run es (boot flash)).committed)
      × (try_get name type (boot (run es (boot flash)).flash)
          ≡ try_get name type (run es (boot flash)))
reboot_recovers flash es name type shape strings =
    let d = run-IsDurable es (boot flash) strings (boot-IsDurable flash shape) in
    let p = run es (boot flash) in
    let (committed, cached) = boot_committed p.flash in
    (
      committed ∙ d.reboot,
      try_get_same name type (boot p.flash) p (committed ∙ d.reboot) (cached ∙ sym d.cached),
    )
