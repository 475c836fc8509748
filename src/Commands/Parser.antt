-- ===== src/Commands/Parser.antt =====
-- `EspIdfCommandParser` of src/Platform/Espressif/Parsers/EspIdfCommandParser.cpp. A pair of pointers
-- into the payload is the text that is left between them.
pub mod Escape
pub mod Fields
pub mod RoundTrip
use io_tsmart_sys_core.Base.{
  ℕ, zero, suc, ◌-◌, ◌+◌, ◌&&◌, ◌||◌, not, Bool, true, false, List, [], ◌∷◌, ◌++◌, Option, none,
  some, Text, codes, is_empty, length, take, drop, ◌==◌, if◌then◌else◌,
}
use io_tsmart_sys_core.Settings.Mqtt.{starts_with}
use io_tsmart_sys_core.Commands.{DeviceCommand, c_str}

abbrev pub is_blank : ℕ → Bool
is_blank c = c == b' ' || (c == b'\t' || (c == b'\n' || c == b'\r'))

unfoldable pub skip_whitespace : Text → Text
skip_whitespace [] = []
skip_whitespace (c ∷ cs) = if is_blank c then skip_whitespace cs else c ∷ cs

-- Behind an opening quote: what follows the key, its closing quote and the colon.
unfoldable pub after_colon : Text → Option Text
after_colon [] = none
after_colon (c ∷ cs) = if c == b':' then some (skip_whitespace cs) else none

unfoldable pub key_here : Text → Text → Option Text
unfolding after_colon skip_whitespace
key_here key rest =
    if starts_with key rest && starts_with (b'"' ∷ []) (drop (length key) rest)
    then after_colon (skip_whitespace (drop (length key + 1) rest))
    else none

-- At each quote, the key is looked for.
unfoldable pub find_key_value_start : Text → Text → Option Text
find_key_value_start key [] = none
find_key_value_start key (c ∷ cs) =
    let later = find_key_value_start key cs in
    if c == b'"' then elim (key_here key cs) [ none ↦ later | some value ↦ some value ] else later

-- The loop of `parseJsonString`: what is read, with its escapes, and the text behind the closing
-- quote.
unfoldable pub string_loop : Bool → Text → Text → Option (Text × Text)
string_loop escaped tmp [] = none
string_loop true tmp (c ∷ cs) = string_loop false (tmp ++ b'\\' ∷ c ∷ []) cs
string_loop false tmp (c ∷ cs) =
    let escape = string_loop true tmp cs in
    let plain = string_loop false (tmp ++ c ∷ []) cs in
    if c == b'\\' then escape else if c == b'"' then some (tmp, cs) else plain

abbrev pub unescaped : ℕ → ℕ
unescaped n =
    if n == b'n' then b'\n' else if n == b'r' then b'\r' else if n == b't' then b'\t' else n

-- The flag is set behind a backslash that something follows.
unfoldable pub unescape : Text → Text
unescape [] = []
unescape (c ∷ []) = c ∷ []
unescape (c ∷ n ∷ cs) =
    let pair = unescaped n ∷ unescape cs in
    let single = c ∷ unescape (n ∷ cs) in if c == b'\\' then pair else single

unfoldable pub parse_json_string : Text → Option (Text × Text)
unfolding string_loop unescape
parse_json_string p = elim (skip_whitespace p) [
  | [] ↦ none
  | c ∷ cs ↦
      if c == b'"'
      then elim (string_loop false [] cs) [
        | none ↦ none
        | some (tmp, next) ↦ some (unescape tmp, next)
      ]
      else none
]

-- `none` where the extraction answers false.
unfoldable pub try_extract_string_field : Text → Text → Option Text
try_extract_string_field key json = elim (find_key_value_start key json) [
  | none ↦ none
  | some p ↦
      if starts_with (b'"' ∷ []) p
      then elim (parse_json_string p) [ none ↦ none | some (value, next) ↦ some value ]
      else none
]

pub record ArgsLoop : Type 0 where
  pub in_string : Bool
  pub escaped : Bool
  pub depth : ℕ
  pub object_start : Option Text
  pub out : List (Text × Text)

-- The argument of an object that is complete, if it has a key and a value.
abbrev pub argument : Text → List (Text × Text)
argument object = elim (try_extract_string_field (codes "key") object) [
  | none ↦ []
  | some key ↦ elim (try_extract_string_field (codes "value") object) [
    | none ↦ []
    | some value ↦ (key, value) ∷ []
  ]
]

abbrev in_string_step : ℕ → ArgsLoop → ArgsLoop
in_string_step c s =
    if s.escaped
    then record s { escaped = false }
    else if c == b'\\'
    then record s { escaped = true }
    else if c == b'"'
    then record s { in_string = false }
    else s

-- At a closing brace; the object runs from its start through the brace.
abbrev close_object : Text → ArgsLoop → ArgsLoop
close_object rest s =
    if s.depth == 0
    then s
    else if s.depth == 1
    then elim s.object_start [
      | none ↦ record s { depth = 0 }
      | some start ↦ record s {
        depth = 0;
        object_start = none;
        out = s.out ++ argument (take (length start - length rest) start);
      }
    ]
    else record s { depth = s.depth - 1 }

-- One byte outside a string, with what follows it.
abbrev outside_step : ℕ → Text → ArgsLoop → ArgsLoop
outside_step c rest s =
    if c == b'"'
    then record s { in_string = true }
    else if c == b'{'
    then record s {
      object_start = if s.depth == 0 then some (c ∷ rest) else s.object_start;
      depth = s.depth + 1;
    }
    else if c == b'}'
    then close_object rest s
    else s

unfoldable pub args_step : ℕ → Text → ArgsLoop → ArgsLoop
args_step c rest s = if s.in_string then in_string_step c s else outside_step c rest s

-- The loop behind the opening bracket; what was collected is kept also where it answers false.
unfoldable pub args_loop : ArgsLoop → Text → List (Text × Text) × Bool
unfolding args_step
args_loop s [] = (s.out, false)
args_loop s (c ∷ cs) =
    let more = args_loop (args_step c cs s) cs in
    if not s.in_string && (c == b']' && s.depth == 0) then (s.out, true) else more

unfoldable pub try_extract_args : Text → List (Text × Text) × Bool
unfolding args_loop
try_extract_args json = elim (find_key_value_start (codes "args") json) [
  | none ↦ ([], false)
  | some p ↦ elim (skip_whitespace p) [
    | [] ↦ ([], false)
    | c ∷ cs ↦
        if c == b'['
        then args_loop
            (record {
              in_string = false;
              escaped = false;
              depth = 0;
              object_start = none;
              out = [];
            })
            cs
        else ([], false)
  ]
]

abbrev or_capability : Option Text → Text
or_capability none = codes "CAPABILITY"
or_capability (some t) = c_str t

-- An empty payload gives no fields, as `parseCommand` refuses it.
unfoldable pub parse_command : Text → Option DeviceCommand
parse_command json = elim (try_extract_string_field (codes "capability_name") json) [
  | none ↦ none
  | some name ↦ elim (try_extract_string_field (codes "device_id") json) [
    | none ↦ none
    | some device ↦ elim (try_extract_string_field (codes "value") json) [
      | none ↦ none
      | some value ↦ some (record {
        capability_name = c_str name;
        device_id = c_str device;
        value = c_str value;
        type = or_capability (try_extract_string_field (codes "type") json);
        args = (try_extract_args json).0;
      })
    ]
  ]
]
