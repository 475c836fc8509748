-- ===== src/BinaryState/Save.antt =====
-- `requestSave` as an update of the map from identities to states.
use io_tsmart_sys_core.Base.{
  ℕ, ◌<◌, Bool, true, false, not, ◌&&◌, ◌≡◌, ◌≢◌, refl, ap, sym, subst, arith, ◌∙◌, inl, inr, List,
  [], ◌∷◌, ◌++◌, ◌-◌, replicate, Option, none, some, Text, text_eq, text_eq-eq, text_eq_refl,
  length, length-set, get_or, set, ◌==◌, Option-cases,
}
use io_tsmart_sys_core.BinaryState.Records.{
  StoredRecord, zero_record, c_str, copy_field, matches, find_record_index,
}
use io_tsmart_sys_core.BinaryState.Nvs.{StateResult, result_ok}
use io_tsmart_sys_core.BinaryState.Store.{
  Provider, flag, lookup, place, record_of, with_record, save_at, save, request_save,
}
use io_tsmart_sys_core.BinaryState.View.{
  NoZero, record_of-matches, lookup-set_ne, lookup-set_found, lookup-set_free, find-matches,
  first_free-unused,
}

-- The outcome `q` of a save that is accepted: the identity has the value, every other identity and
-- what is committed are as before, and the writer is told and goes on as it did.
pub record Accepted (name type : Text) (is_on : Bool) (p : Provider) (q : Provider × StateResult)
    : Type 0 where
  pub result : q.1 ≡ result_ok
  pub saved : lookup name type q.0.desired.records ≡ some is_on
  pub others :
      (other_name other_type : Text)
      → text_eq name other_name && text_eq type other_type ≡ false
      → lookup other_name other_type q.0.desired.records
        ≡ lookup other_name other_type p.desired.records
  pub committed : q.0.committed ≡ p.committed
  pub flash : q.0.flash ≡ p.flash
  pub phase : q.0.phase ≡ p.phase
  pub cached : q.0.cache_loaded ≡ p.cache_loaded
  pub size : length q.0.desired.records ≡ length p.desired.records
  pub notified : q.0.notified ≡ true

record_of-fits :
    (name type : Text) (is_on : Bool)
    → length name < 64
    → length type < 32
    → (r : StoredRecord) × (record_of name type is_on ≡ some r)
unfolding record_of copy_field
record_of-fits name type is_on h k = (
  record {
    capability_name = name ++ replicate (64 - length name) 0;
    type = type ++ replicate (32 - length type) 0;
    is_on = flag is_on;
    used = 1;
  },
  ground arith,
)

matches_iff :
    (name type : Text) (r : StoredRecord)
    → r.used ≡ 1
    → c_str r.capability_name ≡ name
    → c_str r.type ≡ type
    → (other_name other_type : Text)
    → matches other_name other_type r ≡ (text_eq name other_name && text_eq type other_type)
unfolding matches
matches_iff name type r u n t other_name other_type = ground arith

-- Where a used record matches one identity, it matches no other.
matches_one :
    (name type other_name other_type : Text) (r : StoredRecord)
    → text_eq name other_name && text_eq type other_type ≡ false
    → matches name type r ≡ true
    → matches other_name other_type r ≡ false
unfolding matches
matches_one name type other_name other_type r differ h =
    ground (arith, text_eq-eq (c_str r.capability_name) name, text_eq-eq (c_str r.type) type)

unused-matches : (name type : Text) (r : StoredRecord) → r.used ≡ 0 → matches name type r ≡ false
unfolding matches
unused-matches name type r u = ground arith

place_other :
    (name type other_name other_type : Text) (rs : List StoredRecord) (i : ℕ)
    → text_eq name other_name && text_eq type other_type ≡ false
    → place name type rs ≡ some i
    → matches other_name other_type (get_or rs i zero_record) ≡ false
unfolding place
place_other name type other_name other_type rs i differ h =
    elim (Option-cases (find_record_index name type rs)) [
      | inl missing ↦
          unused-matches other_name other_type (get_or rs i zero_record)
            (first_free-unused rs i (ground arith))
      | inr (j, found) ↦
          matches_one name type other_name other_type (get_or rs i zero_record) differ
            (find-matches name type rs i (ground arith))
    ]

place_self :
    (name type : Text) (rs : List StoredRecord) (i : ℕ) (r : StoredRecord)
    → place name type rs ≡ some i
    → matches name type r ≡ true
    → lookup name type (set rs i r) ≡ some (not (r.is_on == 0))
unfolding place
place_self name type rs i r h m = elim (Option-cases (find_record_index name type rs)) [
  | inl missing ↦ lookup-set_free name type rs i r missing (ground arith) m
  | inr (j, found) ↦ lookup-set_found name type rs i r (ground arith) m
]

save_at-Accepted :
    (name type : Text) (is_on : Bool) (i : ℕ) (p : Provider)
    → NoZero name
    → NoZero type
    → length name < 64
    → length type < 32
    → place name type p.desired.records ≡ some i
    → Accepted name type is_on p (save_at name type is_on (some i) p)
unfolding save_at with_record
save_at-Accepted name type is_on i p hn ht ln lt free =
    let (r, made) = record_of-fits name type is_on ln lt in
    let (used, on, n, t) = record_of-matches name type is_on r hn ht made in
    let m = matches_iff name type r used n t in
    let self =
      place_self name type p.desired.records i r free
        (m name type ∙ ground (arith, text_eq_refl name, text_eq_refl type)) in
    let other =
      λ (other_name other_type : Text)
          (differ : text_eq name other_name && text_eq type other_type ≡ false).
        lookup-set_ne other_name other_type p.desired.records i r
          (place_other name type other_name other_type p.desired.records i differ free)
          (m other_name other_type ∙ differ) in
    let stored : Provider = record p { desired = with_record i r p.desired; notified = true } in
    let result : save_at name type is_on (some i) p ≡ (stored, result_ok) = ground arith in
    subst (Accepted name type is_on p) (sym result) (record {
      result = refl;
      saved = self ∙ ap some on;
      others = other;
      committed = refl;
      flash = refl;
      phase = refl;
      cached = refl;
      size = length-set p.desired.records i r;
      notified = refl;
    })

-- A request with an identity of a fitting size is accepted where the writer runs and the identity is
-- known or a slot is free: the identity then has the requested value in the desired snapshot, every
-- other identity keeps its value, the committed snapshot and flash are untouched, and the writer is
-- notified.
pub request_save-Accepted :
    (name type : Text) (is_on : Bool) (i : ℕ) (p : Provider)
    → NoZero name
    → NoZero type
    → 0 < length name
    → 0 < length type
    → length name < 64
    → length type < 32
    → p.writer_available ≡ true
    → place name type p.desired.records ≡ some i
    → Accepted name type is_on p (request_save (some name) (some type) is_on p)
unfolding request_save save
request_save-Accepted [] type is_on i p hn ht pn pt ln lt ready free = absurd (omega arith)
request_save-Accepted (n ∷ ns) [] is_on i p hn ht pn pt ln lt ready free = absurd (omega arith)
request_save-Accepted (n ∷ ns) (t ∷ ts) is_on i p hn ht pn pt ln lt ready free =
    let accepted = save_at-Accepted (n ∷ ns) (t ∷ ts) is_on i p hn ht ln lt free in
    let result : save (n ∷ ns) (t ∷ ts) is_on p ≡ save_at (n ∷ ns) (t ∷ ts) is_on (some i) p =
      ground arith in
    subst (Accepted (n ∷ ns) (t ∷ ts) is_on p) (sym result) accepted

-- A request that is not accepted changes nothing.
pub request_save_refused :
    (name type : Option Text) (is_on : Bool) (p : Provider)
    → (request_save name type is_on p).1 ≢ result_ok
    → (request_save name type is_on p).0 ≡ p
unfolding request_save save save_at
request_save_refused none type is_on p h = refl
request_save_refused (some []) type is_on p h = refl
request_save_refused (some (n ∷ ns)) none is_on p h = refl
request_save_refused (some (n ∷ ns)) (some []) is_on p h = refl
request_save_refused (some (n ∷ ns)) (some (t ∷ ts)) is_on p h = ground arith
