-- ===== src/Commands/Parser/Escape.antt =====
-- Texts with escapes, and the test for a key, in
-- src/Platform/Espressif/Parsers/EspIdfCommandParser.cpp.
use native.Mathlib.Nat.{suc-add}
use mathlib.Core.List.{append_assoc, append-nil}
use io_tsmart_sys_core.Base.{
  ℕ, suc, ◌+◌, ◌&&◌, ◌||◌, not, Bool, true, false, ◌≡◌, refl, ap, ◌∙◌, inl, inr, [], ◌∷◌, ◌++◌,
  none, some, Text, arith, length, drop, ◌==◌, if◌then◌else◌, Bool-cases, text_eq,
}
use io_tsmart_sys_core.Settings.Mqtt.{starts_with}
use io_tsmart_sys_core.Commands.Parser.{
  skip_whitespace, after_colon, key_here, string_loop, unescape,
}

abbrev pub is_special : ℕ → Bool
is_special c = c == b'"' || c == b'\\'

-- A backslash before each quote and each backslash.
abbrev pub escape : Text → Text
escape [] = []
escape (c ∷ cs) = let rest = escape cs in if is_special c then b'\\' ∷ c ∷ rest else c ∷ rest

-- No quote, backslash, colon, comma or closing brace.
abbrev pub is_word : ℕ → Bool
is_word c = not (is_special c) && not (c == b':' || (c == b',' || c == b'}'))

abbrev pub AllWord : Text → Type 0
AllWord [] = Unit {0}
AllWord (c ∷ cs) = (is_word c ≡ true) × AllWord cs

abbrev pub is_end : ℕ → Bool
is_end c = c == b',' || c == b'}'

pub string_loop-escape :
    (v tmp rest : Text)
    → string_loop false tmp (escape v ++ b'"' ∷ rest) ≡ some (tmp ++ escape v, rest)
unfolding string_loop
string_loop-escape [] tmp rest = rw append-nil
string_loop-escape (c ∷ cs) tmp rest = elim (Bool-cases (is_special c)) [
  | inl special ↦ rw special (
      string_loop-escape cs (tmp ++ b'\\' ∷ c ∷ []) rest
      ∙ ap (λ (t : Text). some (t, rest)) (append_assoc tmp (b'\\' ∷ c ∷ []) (escape cs)))
  | inr plain ↦ rw plain (
      ground
        (arith, string_loop-escape cs (tmp ++ c ∷ []) rest, append_assoc tmp (c ∷ []) (escape cs)))
]

unescape_plain : (c : ℕ) (cs : Text) → (c == b'\\') ≡ false → unescape (c ∷ cs) ≡ c ∷ unescape cs
unfolding unescape
unescape_plain c [] h = refl
unescape_plain c (n ∷ cs) h = rw h

pub unescape-escape : (v : Text) → unescape (escape v) ≡ v
unfolding unescape
unescape-escape [] = refl
unescape-escape (c ∷ cs) = elim (Bool-cases (is_special c)) [
  | inl special ↦ rw special (ground (arith, unescape-escape cs))
  | inr plain ↦
      rw plain (unescape_plain c (escape cs) (ground arith) ∙ ap (◌∷◌ c) (unescape-escape cs))
]

drop_past : (n c : ℕ) (cs : Text) → drop (suc n + 1) (c ∷ cs) ≡ drop (n + 1) cs
drop_past n c cs = rw suc-add refl

eq_self : (k : ℕ) → (k == k) ≡ true
eq_self k = ground arith

key_here_cons : (k : ℕ) (ks cs : Text) → key_here (k ∷ ks) (k ∷ cs) ≡ key_here ks cs
unfolding key_here starts_with
key_here_cons k ks cs = ground (arith, drop_past (length ks) k cs, eq_self k)

pub key_here_other : (k c : ℕ) (ks cs : Text) → (c == k) ≡ false → key_here (k ∷ ks) (c ∷ cs) ≡ none
unfolding key_here starts_with
key_here_other k c ks cs h = ground arith

key_here_step :
    (k c : ℕ) (ks cs : Text)
    → key_here (k ∷ ks) (c ∷ cs) ≡ (if c == k then key_here ks cs else none)
key_here_step k c ks cs = ground (arith, key_here_cons k ks cs, key_here_other k c ks cs)

key_here_unquoted : (c : ℕ) (cs : Text) → (c == b'"') ≡ false → key_here [] (c ∷ cs) ≡ none
unfolding key_here starts_with
key_here_unquoted c cs h = ground arith

key_here_end : (x : ℕ) (rest : Text) → is_end x ≡ true → key_here [] (b'"' ∷ x ∷ rest) ≡ none
unfolding key_here starts_with skip_whitespace after_colon
key_here_end x rest e = ground arith

-- Inside a value no key matches.
pub key_here-escape :
    (key v rest : Text) (x : ℕ)
    → AllWord key
    → is_end x ≡ true
    → key_here key (escape v ++ b'"' ∷ x ∷ rest) ≡ none
key_here-escape [] [] rest x w e = key_here_end x rest e
key_here-escape [] (c ∷ cs) rest x w e = elim (Bool-cases (is_special c)) [
  | inl special ↦ rw special (key_here_unquoted b'\\' _ refl)
  | inr plain ↦ rw plain (key_here_unquoted c _ (ground arith))
]
key_here-escape (k ∷ ks) [] rest x w e = key_here_other k b'"' ks (x ∷ rest) (ground arith)
key_here-escape (k ∷ ks) (c ∷ cs) rest x w e = elim (Bool-cases (is_special c)) [
  | inl special ↦ rw special (key_here_other k b'\\' ks _ (ground arith))
  | inr plain ↦ rw plain (
      ground (
        arith,
        key_here_step k c ks (escape cs ++ b'"' ∷ x ∷ rest),
        key_here-escape ks cs rest x w.1 e,
      ))
]

key_here_colon : (rest : Text) → key_here [] (b'"' ∷ b':' ∷ b'"' ∷ rest) ≡ some (b'"' ∷ rest)
unfolding key_here starts_with skip_whitespace after_colon
key_here_colon rest = refl

-- A key that is followed by a colon and a value.
pub key_here_key :
    (key k rest : Text)
    → AllWord key
    → AllWord k
    → key_here key (k ++ b'"' ∷ b':' ∷ b'"' ∷ rest)
      ≡ (if text_eq k key then some (b'"' ∷ rest) else none)
unfolding text_eq
key_here_key [] [] rest w v = key_here_colon rest
key_here_key [] (c ∷ cs) rest w v = key_here_unquoted c _ (ground arith)
key_here_key (k ∷ ks) [] rest w v = key_here_other k b'"' ks _ (ground arith)
key_here_key (k ∷ ks) (c ∷ cs) rest w v =
    ground (
      arith,
      key_here_step k c ks (cs ++ b'"' ∷ b':' ∷ b'"' ∷ rest),
      key_here_key ks cs rest w.1 v.1,
    )
