-- ===== src/Binary/Nvs/Desired.antt =====
-- What the NVS provider is left with by the binary capability of
-- src/Core/Capabilities/BinaryCommandCapability.cpp.
use io_tsmart_sys_core.Base.{
  is_empty, ℕ, ◌<◌, Bool, true, false, ◌&&◌, ◌≡◌, refl, ◌⊎◌, inl, inr, arith, List, [], ◌∷◌, Option,
  none, some, Text, length, Option-cases,
}
use io_tsmart_sys_core.Hardware.{HardwareAdapter}
use io_tsmart_sys_core.BinaryState.Store.{Provider, request_save, save, save_at, lookup, place}
use io_tsmart_sys_core.BinaryState.Records.{StoredRecord}
use io_tsmart_sys_core.BinaryState.View.{NoZero}
use io_tsmart_sys_core.BinaryState.Save.{request_save-Accepted}
use io_tsmart_sys_core.Binary.{Binary, setup}
use io_tsmart_sys_core.Binary.Stable.{Tracks}
use io_tsmart_sys_core.Binary.Wants.{Action, run, run-setup-Wants}
use io_tsmart_sys_core.Binary.Nvs.{nvs}

abbrev is_there : Option ℕ → Bool
is_there none = false
is_there (some i) = true

-- The writer runs, and the identity has a record or a slot is free.
abbrev pub is_ready : Text → Text → Provider → Bool
is_ready name type p = p.writer_available && is_there (place name type p.desired.records)

-- An identity of a size that `requestSave` takes.
pub record Fits (name type : Text) : Type 0 where
  pub name_NoZero : NoZero name
  pub type_NoZero : NoZero type
  pub name_some : 0 < length name
  pub type_some : 0 < length type
  pub name_len : length name < 64
  pub type_len : length type < 32

lookup-place :
    (name type : Text) (v : Bool) (rs : List StoredRecord)
    → lookup name type rs ≡ some v
    → is_there (place name type rs) ≡ true
unfolding lookup place
lookup-place name type v rs h = ground arith

request_save-writer :
    (name type : Option Text) (v : Bool) (p : Provider)
    → (request_save name type v p).0.writer_available ≡ p.writer_available
unfolding request_save save save_at
request_save-writer none type v p = refl
request_save-writer (some []) type v p = refl
request_save-writer (some (n ∷ ns)) none v p = refl
request_save-writer (some (n ∷ ns)) (some []) v p = refl
request_save-writer (some (n ∷ ns)) (some (t ∷ ts)) v p = ground arith

request_save-ready :
    (name type : Text) (v : Bool) (p : Provider)
    → Fits name type
    → is_ready name type p ≡ true
    → (lookup name type (request_save (some name) (some type) v p).0.desired.records ≡ some v)
      × (is_ready name type (request_save (some name) (some type) v p).0 ≡ true)
request_save-ready name type v p f h = elim (Option-cases (place name type p.desired.records)) [
  | inl full ↦ absurd (ground arith)
  | inr (i, free) ↦
      let a =
        request_save-Accepted name type v i p f.name_NoZero f.type_NoZero f.name_some f.type_some
          f.name_len f.type_len (ground arith) free in
      ground (
        arith,
        a.saved,
        lookup-place name type v _ a.saved,
        request_save-writer (some name) (some type) v p,
      )
]

-- What the capability leaves: the provider, which is either untouched or wants the last stable value
-- for the capability's identity; and the last stable value is the published one where that is on or
-- off.
pub record Settled {A : HardwareAdapter} (name type : Text) (p : Provider) (b : Binary A nvs)
    : Type 0 where
  pub provider : Provider
  pub there : b.storage ≡ some provider
  pub desired :
      (provider ≡ p) ⊎ (lookup name type provider.desired.records ≡ some b.last_stable_is_on)
  pub tracks : Tracks b

fits-named : (name : Text) → 0 < length name → is_empty name ≡ false
unfolding is_empty
fits-named [] h = absurd (omega arith)
fits-named (c ∷ cs) h = refl

-- With a name and a type of the lengths that `requestSave` takes and without zero bytes, and a
-- provider whose writer is available and which has the identity's record or a free slot: after the
-- setup of a capability without a transient cycle and any sequence of commands, passes and changes of
-- the hardware, either the provider is as it was, or the state that it wants to store for the
-- identity is the last stable value; and that value is the published one where the published one is
-- on or off.
pub desired_is_stable :
    (A : HardwareAdapter) (as_ : List (Action A)) (b : Binary A nvs) (p : Provider)
    → b.storage ≡ some p
    → b.transient_cycle ≡ false
    → Fits b.capability.capability_name b.capability.type
    → is_ready b.capability.capability_name b.capability.type p ≡ true
    → Settled b.capability.capability_name b.capability.type p (run A nvs as_ (setup A nvs b))
desired_is_stable A as_ b p present steady fits usable =
    let name = b.capability.capability_name in
    let type = b.capability.type in
    let t = run A nvs as_ (setup A nvs b) in
    let w =
      run-setup-Wants A nvs name type (fits-named name fits.name_some)
        (λ q. lookup name type q.desired.records) (is_ready name type)
        (λ v q ready. request_save-ready name type v q fits ready) as_ b steady refl refl
        (rw present usable) in
    elim (Option-cases t.storage) [
      | inl gone ↦ absurd (ground (arith, w.storage))
      | inr (q, there) ↦ record {
        provider = q;
        there = there;
        desired = ground (arith, w.storage);
        tracks = w.tracks;
      }
    ]
