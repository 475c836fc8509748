-- ===== src/BinaryState/Boot.antt =====
-- What the boot finds in flash is a snapshot that may be written again.
use io_tsmart_sys_core.Base.{
  true, ◌≡◌, refl, arith, ◌∙◌, inl, inr, Option, none, some, length, length-append, Option-cases,
}
use io_tsmart_sys_core.BinaryState.Records.{
  Snapshot, count_active, record_is_valid, validate_legacy_snapshot,
}
use io_tsmart_sys_core.BinaryState.Nvs.{
  Blob, current, legacy, other_size, esp_ok, ReadCodes, load_snapshot, load_blob, empty_snapshot,
  migrated,
}
use io_tsmart_sys_core.BinaryState.Valid.{
  IsSane, IsValid, all_valid, all_valid-append, all_valid-count_active, validate-IsValid,
  IsValid-validate,
}

abbrev pub reads_fine : ReadCodes
reads_fine = record { flash_init = esp_ok; open_namespace = esp_ok; query = esp_ok; read = esp_ok }

-- The arrays that flash holds have the sizes of the C arrays.
abbrev pub HasShape : Option Blob → Type 0
HasShape none = Unit {0}
HasShape (some (current s)) = length s.records ≡ 12
HasShape (some (legacy s)) = length s.records ≡ 8
HasShape (some (other_size n)) = Unit {0}

empty-IsSane : IsSane empty_snapshot
unfolding record_is_valid
empty-IsSane = record { version = refl; size = omega arith; records = refl }

legacy-all_valid : (s : Snapshot) → validate_legacy_snapshot s ≡ true → all_valid s.records ≡ true
unfolding validate_legacy_snapshot
legacy-all_valid s h = elim (Option-cases (count_active 0 s.records)) [
  | inl failed ↦ absurd (ground arith)
  | inr (n, counted) ↦ all_valid-count_active 0 s.records n counted
]

migrated-IsSane :
    (s : Snapshot) → length s.records ≡ 8 → all_valid s.records ≡ true → IsSane (migrated s)
unfolding migrated record_is_valid
migrated-IsSane s size h = record {
  version = refl;
  size = omega (arith, length-append s.records _, size);
  records = all_valid-append s.records _ ∙ ground arith;
}

pub load_snapshot-IsSane :
    (flash : Option Blob) → HasShape flash → IsSane (load_snapshot reads_fine flash).0
unfolding load_snapshot load_blob
load_snapshot-IsSane none h = empty-IsSane
load_snapshot-IsSane (some (other_size n)) h = empty-IsSane
load_snapshot-IsSane (some (current s)) h = ground (arith, IsValid-validate s h, empty-IsSane)
load_snapshot-IsSane (some (legacy s)) h =
    ground (arith, legacy-all_valid s, migrated-IsSane s h, empty-IsSane)

-- What a commit left is read back whole.
pub load_snapshot-current :
    (s : Snapshot) → IsValid s → (load_snapshot reads_fine (some (current s))).0 ≡ s
unfolding load_snapshot load_blob
load_snapshot-current s v = ground (arith, validate-IsValid s v, v.sane)
