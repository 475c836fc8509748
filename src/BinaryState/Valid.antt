-- ===== src/BinaryState/Valid.antt =====
-- The snapshots that pass validation, and what keeps them so.
use io_tsmart_sys_core.Base.{
  ℕ, zero, suc, ◌+◌, ◌-◌, ◌<◌, ◌≤◌, Bool, true, false, ◌&&◌, ◌≡◌, refl, arith, inl, inr, List, [],
  ◌∷◌, ◌++◌, some, Text, text_eq_refl, length, set, replicate, ◌==◌, length-set, Option-cases,
  if◌then◌else◌,
}
use io_tsmart_sys_core.BinaryState.Records.{
  StoredRecord, Snapshot, c_str, copy_field, record_is_valid, count_active, field_is_terminated,
  compute_checksum, validate_snapshot, slot_differs, pending_count,
}
use io_tsmart_sys_core.BinaryState.Store.{record_of, with_record}
use io_tsmart_sys_core.BinaryState.View.{NoZero}

abbrev pub all_valid : List StoredRecord → Bool
all_valid [] = true
all_valid (r ∷ rs) = record_is_valid r && all_valid rs

pub record IsSane (s : Snapshot) : Type 0 where
  pub version : s.version ≡ 3
  pub size : length s.records ≤ 12
  pub records : all_valid s.records ≡ true

pub record IsValid (s : Snapshot) : Type 0 where
  pub sane : IsSane s
  pub sum : compute_checksum s ≡ s.checksum

count_active-all_valid :
    (active : ℕ) (rs : List StoredRecord)
    → all_valid rs ≡ true
    → (n : ℕ) × (count_active active rs ≡ some n) × (n ≤ active + length rs)
unfolding count_active
count_active-all_valid active [] h = (active, refl, omega arith)
count_active-all_valid active (r ∷ rs) h =
    let (n, counted, bound) =
      count_active-all_valid (if r.used == 0 then active else active + 1) rs (ground arith) in
    (n, ground arith, ground arith)

pub all_valid-count_active :
    (active : ℕ) (rs : List StoredRecord) (n : ℕ)
    → count_active active rs ≡ some n
    → all_valid rs ≡ true
unfolding count_active
all_valid-count_active active [] n h = refl
all_valid-count_active active (r ∷ rs) n h =
    ground (arith, all_valid-count_active (if r.used == 0 then active else active + 1) rs n)

pub validate-IsValid : (s : Snapshot) → IsValid s → validate_snapshot s ≡ true
unfolding validate_snapshot
validate-IsValid s v = ground (arith, count_active-all_valid 0 s.records v.sane.records)

pub IsValid-validate :
    (s : Snapshot) → length s.records ≡ 12 → validate_snapshot s ≡ true → IsValid s
unfolding validate_snapshot
IsValid-validate s size h = elim (Option-cases (count_active 0 s.records)) [
  | inl failed ↦ absurd (ground arith)
  | inr (n, counted) ↦ ground (arith, all_valid-count_active 0 s.records n counted)
]

all_valid-set :
    (rs : List StoredRecord) (i : ℕ) (r : StoredRecord)
    → record_is_valid r ≡ true
    → all_valid rs ≡ true
    → all_valid (set rs i r) ≡ true
all_valid-set [] i r h a = refl
all_valid-set (x ∷ rs) zero r h a = ground arith
all_valid-set (x ∷ rs) (suc i) r h a = ground (arith, all_valid-set rs i r h)

pub all_valid-append :
    (rs ss : List StoredRecord) → all_valid (rs ++ ss) ≡ all_valid rs && all_valid ss
all_valid-append [] ss = refl
all_valid-append (r ∷ rs) ss = ground (arith, all_valid-append rs ss)

terminated-append : (src : Text) (n : ℕ) → 0 < n → field_is_terminated (src ++ replicate n 0) ≡ true
unfolding field_is_terminated
terminated-append [] zero h = absurd (omega arith)
terminated-append [] (suc n) h = refl
terminated-append (x ∷ src) n h = ground (arith, terminated-append src n h)

copy_field-terminated :
    (size : ℕ) (src : Text) (out : List ℕ)
    → copy_field size src ≡ some out
    → (out ≡ src ++ replicate (size - length src) 0) × (field_is_terminated out ≡ true)
unfolding copy_field
copy_field-terminated size src out h = ground (arith, terminated-append src (size - length src))

-- What a save writes passes the tests of one record.
pub record_of-valid :
    (n t : ℕ) (ns ts : Text) (is_on : Bool) (r : StoredRecord)
    → NoZero (n ∷ ns)
    → NoZero (t ∷ ts)
    → record_of (n ∷ ns) (t ∷ ts) is_on ≡ some r
    → record_is_valid r ≡ true
unfolding record_of record_is_valid
record_of-valid n t ns ts is_on r hn ht e = elim (Option-cases (copy_field 64 (n ∷ ns))) [
  | inl missing ↦ absurd (ground arith)
  | inr (a, name) ↦ elim (Option-cases (copy_field 32 (t ∷ ts))) [
    | inl missing ↦ absurd (ground arith)
    | inr (b, type) ↦
        ground (
          arith,
          copy_field-terminated 64 (n ∷ ns) a name,
          copy_field-terminated 32 (t ∷ ts) b type,
        )
  ]
]

pub with_record-IsValid :
    (i : ℕ) (r : StoredRecord) (s : Snapshot)
    → record_is_valid r ≡ true
    → IsSane s
    → IsValid (with_record i r s)
unfolding with_record compute_checksum
with_record-IsValid i r s h v = record {
  sane = record {
    version = refl;
    size = omega (arith, length-set s.records i r, v.size);
    records = all_valid-set s.records i r h v.records;
  };
  sum = refl;
}

slot_differs_self : (r : StoredRecord) → slot_differs r r ≡ false
unfolding slot_differs
slot_differs_self r =
    ground (arith, text_eq_refl (c_str r.capability_name), text_eq_refl (c_str r.type))

pub pending_count_self : (rs : List StoredRecord) → pending_count rs rs ≡ 0
unfolding pending_count
pending_count_self [] = refl
pending_count_self (r ∷ rs) = ground (arith, slot_differs_self r, pending_count_self rs)
