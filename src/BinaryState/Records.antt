-- ===== src/BinaryState/Records.antt =====
-- The records and snapshots of `EspNvsBinaryCapabilityStateProvider`
-- (src/Platform/Espressif/Capabilities/Providers), with their validation. A `char` field is the list
-- of all its bytes.
use Prim.Native.Nat.{bit_xor}
use io_tsmart_sys_core.Base.{
  ℕ, suc, ◌+◌, ◌*◌, ◌/◌, ◌%◌, ◌-◌, Bool, false, not, ◌&&◌, ◌||◌, List, [], ◌∷◌, ◌++◌, Option, none,
  some, Text, text_eq, length, get_or, replicate, ltb, leb, ◌==◌, if◌then◌else◌, u32,
}

abbrev pub max_records : ℕ
max_records = 12

abbrev pub name_len : ℕ
name_len = 64

abbrev pub type_len : ℕ
type_len = 32

abbrev pub legacy_max_records : ℕ
legacy_max_records = 8

abbrev pub storage_version : ℕ
storage_version = 3

abbrev pub legacy_storage_version : ℕ
legacy_storage_version = 2

pub record StoredRecord : Type 0 where
  pub capability_name : List ℕ
  pub type : List ℕ
  pub is_on : ℕ
  pub used : ℕ

-- `StoredSnapshot` has 12 records and `LegacyStoredSnapshot` 8.
pub record Snapshot : Type 0 where
  pub version : ℕ
  pub checksum : ℕ
  pub records : List StoredRecord

abbrev pub zero_record : StoredRecord
zero_record = record {
  capability_name = replicate name_len 0;
  type = replicate type_len 0;
  is_on = 0;
  used = 0;
}

-- What a C string function reads of a field: the bytes in front of the first zero.
unfoldable pub c_str : List ℕ → Text
c_str [] = []
c_str (x ∷ xs) = if x == 0 then [] else x ∷ c_str xs

-- `memcpy` of the text and `memset` of the rest; `none` where the text does not fit.
unfoldable pub copy_field : ℕ → Text → Option (List ℕ)
copy_field size src =
    if leb size (length src) then none else some (src ++ replicate (size - length src) 0)

-- FNV-1a: xor, then multiply in 32 bits.
unfoldable pub mix : ℕ → List ℕ → ℕ
mix hash [] = hash
mix hash (b ∷ bs) = mix (u32 (bit_xor hash b * 16777619)) bs

-- The bytes of a uint32 on a little-endian machine.
abbrev pub u32_bytes : ℕ → List ℕ
u32_bytes n = n % 256 ∷ (n / 256) % 256 ∷ (n / 65536) % 256 ∷ (n / 16777216) % 256 ∷ []

unfoldable pub record_bytes : List StoredRecord → List ℕ
record_bytes [] = []
record_bytes (r ∷ rs) = r.capability_name ++ (r.type ++ (r.is_on ∷ r.used ∷ record_bytes rs))

unfoldable pub compute_checksum : Snapshot → ℕ
unfolding mix record_bytes
compute_checksum s = mix (mix 2166136261 (u32_bytes s.version)) (record_bytes s.records)

-- The loop over `i < capacity`, for a field of that size.
unfoldable pub field_is_terminated : List ℕ → Bool
field_is_terminated [] = false
field_is_terminated (x ∷ xs) = x == 0 || field_is_terminated xs

-- The tests that one record has to pass.
unfoldable pub record_is_valid : StoredRecord → Bool
unfolding field_is_terminated
record_is_valid r =
    not (ltb 1 r.used || ltb 1 r.is_on)
    && ((field_is_terminated r.capability_name && field_is_terminated r.type)
        && (r.used == 0 || not (get_or r.capability_name 0 0 == 0 || get_or r.type 0 0 == 0)))

-- The loop with its count of active records; `none` is its `return false`.
unfoldable pub count_active : ℕ → List StoredRecord → Option ℕ
count_active active [] = some active
count_active active (r ∷ rs) =
    let rest = count_active (if r.used == 0 then active else active + 1) rs in
    if record_is_valid r then rest else none

unfoldable pub validate_snapshot : Snapshot → Bool
unfolding count_active
validate_snapshot s = s.version == storage_version && elim (count_active 0 s.records) [
  | none ↦ false
  | some active ↦ not (ltb max_records active) && compute_checksum s == s.checksum
]

unfoldable pub validate_legacy_snapshot : Snapshot → Bool
unfolding count_active
validate_legacy_snapshot s =
    s.version == legacy_storage_version && elim (count_active 0 s.records) [
      | none ↦ false
      | some active ↦ compute_checksum s == s.checksum
    ]

-- A used record of that identity.
unfoldable pub matches : Text → Text → StoredRecord → Bool
matches name type r =
    not (r.used == 0) && (text_eq (c_str r.capability_name) name && text_eq (c_str r.type) type)

-- The first match; `none` is -1.
unfoldable pub find_record_index : Text → Text → List StoredRecord → Option ℕ
unfolding matches
find_record_index name type [] = none
find_record_index name type (r ∷ rs) =
    let later = find_record_index name type rs in
    if matches name type r then some 0 else elim later [ none ↦ none | some i ↦ some (suc i) ]

-- `strncmp` over a whole field compares the same bytes as `strcmp` where the fields are terminated.
unfoldable pub slot_differs : StoredRecord → StoredRecord → Bool
slot_differs d c =
    not (d.used == c.used)
    || (not (d.is_on == c.is_on)
        || (not (text_eq (c_str d.capability_name) (c_str c.capability_name))
            || not (text_eq (c_str d.type) (c_str c.type))))

unfoldable pub pending_count : List StoredRecord → List StoredRecord → ℕ
unfolding slot_differs
pending_count [] cs = 0
pending_count (d ∷ ds) [] = 0
pending_count (d ∷ ds) (c ∷ cs) =
    let rest = pending_count ds cs in if slot_differs d c then rest + 1 else rest
