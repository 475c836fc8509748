-- ===== src/BinaryState/View.antt =====
-- What a save does to the states that the records give.
use io_tsmart_sys_core.Base.{
  ℕ, zero, suc, ◌-◌, Bool, true, false, not, ◌≡◌, refl, arith, inl, inr, List, [], ◌∷◌, ◌++◌, none,
  some, Text, length, get_or, set, replicate, ◌==◌, Option-cases,
}
use io_tsmart_sys_core.BinaryState.Records.{
  StoredRecord, zero_record, name_len, type_len, c_str, copy_field, matches, find_record_index,
}
use io_tsmart_sys_core.BinaryState.Store.{lookup, first_free, record_of}

-- A C string has no zero byte.
abbrev pub NoZero : Text → Type 0
NoZero [] = Unit {0}
NoZero (x ∷ xs) = ((x == 0) ≡ false) × NoZero xs

c_str-padded : (src : Text) (n : ℕ) → NoZero src → c_str (src ++ replicate n 0) ≡ src
unfolding c_str
c_str-padded [] zero h = refl
c_str-padded [] (suc n) h = refl
c_str-padded (x ∷ src) n h = ground (arith, c_str-padded src n h.1)

c_str-copy_field :
    (size : ℕ) (src : Text) (out : List ℕ)
    → NoZero src
    → copy_field size src ≡ some out
    → c_str out ≡ src
unfolding copy_field
c_str-copy_field size src out h e = ground (arith, c_str-padded src (size - length src) h)

-- The record that is written matches the identity that it was made of, and no other.
pub record_of-matches :
    (name type : Text) (is_on : Bool) (r : StoredRecord)
    → NoZero name
    → NoZero type
    → record_of name type is_on ≡ some r
    → (r.used ≡ 1)
      × (not (r.is_on == 0) ≡ is_on)
      × (c_str r.capability_name ≡ name)
      × (c_str r.type ≡ type)
unfolding record_of
record_of-matches name type is_on r hn ht e = elim (Option-cases (copy_field name_len name)) [
  | inl missing ↦ ground arith
  | inr (n, found_name) ↦ elim (Option-cases (copy_field type_len type)) [
    | inl missing ↦ ground arith
    | inr (t, found_type) ↦ ground (
      arith,
      c_str-copy_field name_len name n hn found_name,
      c_str-copy_field type_len type t ht found_type,
    )
  ]
]

module _ (name type : Text) where
  pub lookup-set_ne :
      (rs : List StoredRecord) (i : ℕ) (r : StoredRecord)
      → matches name type (get_or rs i zero_record) ≡ false
      → matches name type r ≡ false
      → lookup name type (set rs i r) ≡ lookup name type rs
  unfolding lookup find_record_index
  lookup-set_ne [] i r h k = refl
  lookup-set_ne (x ∷ rs) zero r h k = ground arith
  lookup-set_ne (x ∷ rs) (suc i) r h k = ground (arith, lookup-set_ne rs i r h k)

  pub lookup-set_found :
      (rs : List StoredRecord) (i : ℕ) (r : StoredRecord)
      → find_record_index name type rs ≡ some i
      → matches name type r ≡ true
      → lookup name type (set rs i r) ≡ some (not (r.is_on == 0))
  unfolding lookup find_record_index
  lookup-set_found [] i r h k = cc
  lookup-set_found (x ∷ rs) zero r h k = ground arith
  lookup-set_found (x ∷ rs) (suc i) r h k = ground (arith, lookup-set_found rs i r)

  pub lookup-set_free :
      (rs : List StoredRecord) (i : ℕ) (r : StoredRecord)
      → find_record_index name type rs ≡ none
      → first_free rs ≡ some i
      → matches name type r ≡ true
      → lookup name type (set rs i r) ≡ some (not (r.is_on == 0))
  unfolding lookup find_record_index first_free
  lookup-set_free [] i r h f k = cc
  lookup-set_free (x ∷ rs) zero r h f k = ground arith
  lookup-set_free (x ∷ rs) (suc i) r h f k = ground (arith, lookup-set_free rs i r)

  pub find-matches :
      (rs : List StoredRecord) (i : ℕ)
      → find_record_index name type rs ≡ some i
      → matches name type (get_or rs i zero_record) ≡ true
  unfolding find_record_index
  find-matches [] i h = cc
  find-matches (x ∷ rs) zero h = ground arith
  find-matches (x ∷ rs) (suc i) h = ground (arith, find-matches rs i)

pub first_free-unused :
    (rs : List StoredRecord) (i : ℕ) → first_free rs ≡ some i → (get_or rs i zero_record).used ≡ 0
unfolding first_free
first_free-unused [] i h = cc
first_free-unused (x ∷ rs) zero h = ground arith
first_free-unused (x ∷ rs) (suc i) h = ground (arith, first_free-unused rs i)
