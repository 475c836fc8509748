-- ===== src/Commands/Parser/RoundTrip.antt =====
-- A command that is written as an object is what `parseCommand` of
-- src/Platform/Espressif/Parsers/EspIdfCommandParser.cpp gives back.
use io_tsmart_sys_core.Base.{
  ◌≡◌, refl, ap, sym, List, [], ◌∷◌, none, some, Text, codes, text_eq, zero, suc, arith,
}
use io_tsmart_sys_core.Commands.{DeviceCommand, c_str}
use io_tsmart_sys_core.Commands.Parser.{
  find_key_value_start, try_extract_string_field, try_extract_args, parse_command,
}
use io_tsmart_sys_core.Commands.Parser.Fields.{
  object, WordNames, try_extract_string_field-object, find-object,
}

-- No byte is zero.
abbrev pub NoZero : Text → Type 0
NoZero [] = Unit {0}
NoZero (zero ∷ cs) = ⊥
NoZero (suc c ∷ cs) = NoZero cs

c_str_lem : (t : Text) → NoZero t → c_str t ≡ t
unfolding c_str
c_str_lem [] h = refl
c_str_lem (zero ∷ cs) h = absurd h
c_str_lem (suc c ∷ cs) h = ap (◌∷◌ (suc c)) (c_str_lem cs h)

-- The fields of a command without arguments.
abbrev pub written : DeviceCommand → List (Text × Text)
written c =
    (codes "capability_name", c.capability_name)
    ∷ (codes "device_id", c.device_id)
    ∷ (codes "value", c.value)
    ∷ (codes "type", c.type)
    ∷ []

written-WordNames : (c : DeviceCommand) → WordNames (written c)
written-WordNames c = ground arith

no_args : (c : DeviceCommand) → (try_extract_args (object (written c))).0 ≡ []
unfolding try_extract_args text_eq
no_args c =
    let gone : find_key_value_start (codes "args") (object (written c)) ≡ none =
      find-object b'a' (codes "rgs") (written c) (ground arith) (written-WordNames c) in
    rw (gone, try_extract_args) refl

module _ (c : DeviceCommand) where
  name_field :
      try_extract_string_field (codes "capability_name") (object (written c))
      ≡ some c.capability_name
  unfolding text_eq
  name_field = try_extract_string_field-object _ _ (written c) (ground arith) (written-WordNames c)

  device_field :
      try_extract_string_field (codes "device_id") (object (written c)) ≡ some c.device_id
  unfolding text_eq
  device_field =
      try_extract_string_field-object _ _ (written c) (ground arith) (written-WordNames c)

  value_field : try_extract_string_field (codes "value") (object (written c)) ≡ some c.value
  unfolding text_eq
  value_field = try_extract_string_field-object _ _ (written c) (ground arith) (written-WordNames c)

  type_field : try_extract_string_field (codes "type") (object (written c)) ≡ some c.type
  unfolding text_eq
  type_field = try_extract_string_field-object _ _ (written c) (ground arith) (written-WordNames c)

-- A command without arguments whose texts have no zero byte, written as a JSON object with a
-- backslash before each quote and each backslash, is parsed back.
pub parse_command-written :
    (c : DeviceCommand)
    → NoZero c.capability_name
    → NoZero c.device_id
    → NoZero c.value
    → NoZero c.type
    → c.args ≡ []
    → parse_command (object (written c)) ≡ some c
unfolding parse_command
parse_command-written c n d v t a =
    rw (parse_command, name_field c, device_field c, value_field c, type_field c, no_args c)
      (simp
        (
          c_str_lem c.capability_name n,
          c_str_lem c.device_id d,
          c_str_lem c.value v,
          c_str_lem c.type t,
        )
        (ap (λ args. some (record c { args = args })) (sym a)))
