-- ===== src/Commands/Parser/Fields.antt =====
-- Extraction of string fields in src/Platform/Espressif/Parsers/EspIdfCommandParser.cpp, against
-- objects that are written with escapes.
use io_tsmart_sys_core.Base.{
  ℕ, true, false, ◌≡◌, refl, ap, ◌∙◌, inl, inr, List, [], ◌∷◌, ◌++◌, Option, none, some, Text,
  arith, ◌==◌, if◌then◌else◌, Bool-cases, text_eq,
}
use io_tsmart_sys_core.Commands.Parser.Escape.{
  is_special, escape, AllWord, is_end, string_loop-escape, unescape-escape, key_here_other,
  key_here-escape, key_here_key,
}
use io_tsmart_sys_core.Settings.Mqtt.{starts_with}
use io_tsmart_sys_core.Commands.Parser.{
  skip_whitespace, key_here, find_key_value_start, parse_json_string, try_extract_string_field,
}

find_skip :
    (key cs : Text) (c : ℕ)
    → key_here key cs ≡ none
    → find_key_value_start key (c ∷ cs) ≡ find_key_value_start key cs
unfolding find_key_value_start
find_skip key cs c h = ground arith

find_plain :
    (key cs : Text) (c : ℕ)
    → (c == b'"') ≡ false
    → find_key_value_start key (c ∷ cs) ≡ find_key_value_start key cs
unfolding find_key_value_start
find_plain key cs c h = ground arith

find_here :
    (key cs v : Text) → key_here key cs ≡ some v → find_key_value_start key (b'"' ∷ cs) ≡ some v
unfolding find_key_value_start
find_here key cs v h = rw h refl

module _ (k : ℕ) (ks : Text) (w : AllWord (k ∷ ks)) (x : ℕ) (e : is_end x ≡ true)
    (rest : Text) where
  -- A value is passed over by the search for a key.
  find_past_value :
      (v : Text)
      → find_key_value_start (k ∷ ks) (escape v ++ b'"' ∷ x ∷ rest)
        ≡ find_key_value_start (k ∷ ks) rest
  find_past_value [] =
      find_skip (k ∷ ks) (x ∷ rest) b'"' (key_here_other k x ks rest (ground arith))
      ∙ find_plain (k ∷ ks) rest x (ground arith)
  find_past_value (c ∷ cs) =
      let tail = escape cs ++ b'"' ∷ x ∷ rest in
      let past =
        find_skip (k ∷ ks) tail c (key_here-escape (k ∷ ks) cs rest x w e) ∙ find_past_value cs in
      elim (Bool-cases (is_special c)) [
        | inl special ↦ rw special (find_plain (k ∷ ks) (c ∷ tail) b'\\' refl ∙ past)
        | inr plain ↦ rw plain past
      ]

  -- So is another key, with its value.
  find_past_key :
      (name v : Text)
      → AllWord name
      → find_key_value_start (k ∷ ks) (name ++ b'"' ∷ b':' ∷ b'"' ∷ (escape v ++ b'"' ∷ x ∷ rest))
        ≡ find_key_value_start (k ∷ ks) rest
  find_past_key [] v n =
      let tail = escape v ++ b'"' ∷ x ∷ rest in
      find_skip (k ∷ ks) (b':' ∷ b'"' ∷ tail) b'"'
        (key_here_other k b':' ks (b'"' ∷ tail) (ground arith))
      ∙ find_plain (k ∷ ks) (b'"' ∷ tail) b':' refl
      ∙ find_skip (k ∷ ks) tail b'"' (key_here-escape (k ∷ ks) v rest x w e)
      ∙ find_past_value v
  find_past_key (c ∷ cs) v n = find_plain (k ∷ ks) _ c (ground arith) ∙ find_past_key cs v n.1

-- The text of an object with string fields.
abbrev pub closing : List (Text × Text) → ℕ
closing [] = b'}'
closing (f ∷ fs) = b','

abbrev pub fields : List (Text × Text) → Text
fields [] = []
fields ((name, v) ∷ fs) =
    b'"' ∷ (name ++ b'"' ∷ b':' ∷ b'"' ∷ (escape v ++ b'"' ∷ closing fs ∷ fields fs))

abbrev pub object : List (Text × Text) → Text
object fs = b'{' ∷ fields fs

abbrev pub lookup : Text → List (Text × Text) → Option Text
lookup key [] = none
lookup key ((name, v) ∷ fs) = if text_eq name key then some v else lookup key fs

-- Every name is made of word bytes.
abbrev pub WordNames : List (Text × Text) → Type 0
WordNames [] = Unit {0}
WordNames ((name, v) ∷ fs) = AllWord name × WordNames fs

-- From the opening quote of a value.
abbrev pub quoted : Text → ℕ → Text → Text
quoted v x rest = b'"' ∷ (escape v ++ b'"' ∷ x ∷ rest)

closing_ends : (fs : List (Text × Text)) → is_end (closing fs) ≡ true
closing_ends [] = refl
closing_ends (f ∷ fs) = refl

-- What the search finds: the value of the first field of that name.
abbrev pub Finds : Option Text → Option Text → Type 0
Finds none found = found ≡ none
Finds (some v) found = (x : ℕ) × (rest : Text) × (found ≡ some (quoted v x rest))

find_nil : (key : Text) → find_key_value_start key [] ≡ none
unfolding find_key_value_start
find_nil key = refl

find-fields :
    (k : ℕ) (ks : Text) (fs : List (Text × Text))
    → AllWord (k ∷ ks)
    → WordNames fs
    → Finds (lookup (k ∷ ks) fs) (find_key_value_start (k ∷ ks) (fields fs))
find-fields k ks [] w n = find_nil (k ∷ ks)
find-fields k ks ((name, v) ∷ fs) w n =
    let tail = escape v ++ b'"' ∷ closing fs ∷ fields fs in
    let here = key_here_key (k ∷ ks) name tail w n.0 in
    elim (Bool-cases (text_eq name (k ∷ ks))) [
      | inl same ↦
          rw same (closing fs, fields fs, find_here (k ∷ ks) _ (b'"' ∷ tail) (rw same at here))
      | inr other ↦
          let past =
            find_skip (k ∷ ks) _ b'"' (rw other at here)
            ∙ find_past_key k ks w (closing fs) (closing_ends fs) (fields fs) name v n.0 in
          rw other (rw past (find-fields k ks fs w n.1))
    ]

parse-quoted :
    (v : Text) (x : ℕ) (rest : Text) → parse_json_string (quoted v x rest) ≡ some (v, x ∷ rest)
unfolding parse_json_string skip_whitespace
parse-quoted v x rest =
    rw (string_loop-escape v [] (x ∷ rest))
      (ap (λ (t : Text). some (t, x ∷ rest)) (unescape-escape v))

extract_found :
    (key json : Text) (o : Option Text)
    → Finds o (find_key_value_start key json)
    → try_extract_string_field key json ≡ o
unfolding try_extract_string_field starts_with
extract_found key json none e = rw (e, try_extract_string_field) refl
extract_found key json (some v) (x, rest, e) =
    rw (e, try_extract_string_field) (rw (parse-quoted v x rest) refl)

pub find-object :
    (k : ℕ) (ks : Text) (fs : List (Text × Text))
    → AllWord (k ∷ ks)
    → WordNames fs
    → Finds (lookup (k ∷ ks) fs) (find_key_value_start (k ∷ ks) (object fs))
find-object k ks fs w n = rw (find_plain (k ∷ ks) (fields fs) b'{' refl) (find-fields k ks fs w n)

-- From an object whose names are made of word bytes, with any texts for values, written with a
-- backslash before each quote and each backslash, the parser extracts for a name the value of the
-- first field of that name, and nothing if there is none.
pub try_extract_string_field-object :
    (k : ℕ) (ks : Text) (fs : List (Text × Text))
    → AllWord (k ∷ ks)
    → WordNames fs
    → try_extract_string_field (k ∷ ks) (object fs) ≡ lookup (k ∷ ks) fs
try_extract_string_field-object k ks fs w n =
    extract_found (k ∷ ks) (object fs) (lookup (k ∷ ks) fs) (find-object k ks fs w n)
