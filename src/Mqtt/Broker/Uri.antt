-- ===== src/Mqtt/Broker/Uri.antt =====
-- The URI of a broker, and the decimal number in it.
use native.Mathlib.Nat.{pow-suc}
use io_tsmart_sys_core.Base.{
  ℕ, zero, suc, ◌+◌, ◌-◌, ◌*◌, ◌/◌, ◌%◌, ◌^◌, ◌<◌, true, false, ◌≡◌, refl, ap, ◌∙◌, ◌≢◌, inl, inr,
  arith, [], ◌∷◌, ◌++◌, Text, codes, ltb, ◌==◌, Bool-cases,
}
use io_tsmart_sys_core.Settings.Mqtt.{MqttConfig}
use io_tsmart_sys_core.Mqtt.Broker.{
  split_host, decimal_onto, to_string, port_or_default, or_mqtt, uri_from, build_uri,
}

abbrev pub NoSlash : Text → Type 0
NoSlash [] = Unit {0}
NoSlash (x ∷ xs) = ((x == b'/') ≡ false) × NoSlash xs

-- Empty, or with a `/` in front.
abbrev pub IsPath : Text → Type 0
IsPath [] = Unit {0}
IsPath (x ∷ xs) = (x == b'/') ≡ true

split_host-append :
    (host path : Text) → NoSlash host → IsPath path → split_host (host ++ path) ≡ (host, path)
unfolding split_host
split_host-append [] [] h p = refl
split_host-append [] (x ∷ path) h p = ground arith
split_host-append (x ∷ host) path h p = ground (arith, split_host-append host path h.1 p)

-- The number that a text of decimal digits stands for, read behind `acc`.
abbrev pub parse_onto : ℕ → Text → ℕ
parse_onto acc [] = acc
parse_onto acc (d ∷ ds) = parse_onto (acc * 10 + (d - b'0')) ds

parse-decimal :
    (fuel n : ℕ) (out : Text)
    → n < 10 ^ suc fuel
    → parse_onto 0 (decimal_onto (suc fuel) n out) ≡ parse_onto n out
unfolding decimal_onto
parse-decimal zero n out h =
    let small : ltb n 10 ≡ true = ground arith in
    rw small (ap (λ k. parse_onto k out) (omega arith))
parse-decimal (suc fuel) n out h = elim (Bool-cases (ltb n 10)) [
  | inl small ↦ rw small (ap (λ k. parse_onto k out) (ground arith))
  | inr big ↦ rw big (
      parse-decimal fuel (n / 10) ((n % 10 + b'0') ∷ out) (omega (arith, pow-suc 10 (suc fuel)))
      ∙ ap (λ k. parse_onto k out) (omega arith))
]

split-uri :
    (c : MqttConfig) (host path : Text)
    → NoSlash host
    → IsPath path
    → c.host ≡ host ++ path
    → build_uri c ≡ uri_from c (host, path)
unfolding build_uri
split-uri c host path h p e =
    ap (λ t. uri_from c (split_host t)) e ∙ ap (uri_from c) (split_host-append host path h p)

-- A configured host may carry a path: the URI names protocol, host and port, and ends in the path.
-- The port in it reads back as the configured one; without a host there is no URI.
pub build_uri_lem :
    (c : MqttConfig) (host path : Text)
    → NoSlash host
    → IsPath path
    → c.host ≡ host ++ path
    → port_or_default c.port < 10000000000
    → (host ≢ []
        → build_uri c
          ≡ or_mqtt c.protocol
            ++ (codes "://"
                ++ (host ++ (codes ":" ++ (to_string (port_or_default c.port) ++ path)))))
      × (host ≡ [] → build_uri c ≡ [])
      × (parse_onto 0 (to_string (port_or_default c.port)) ≡ port_or_default c.port)
unfolding build_uri
build_uri_lem c [] path h p e small = (
  λ ne. absurd (ne refl),
  λ _. split-uri c [] path h p e,
  parse-decimal 9 (port_or_default c.port) [] small,
)
build_uri_lem c (x ∷ host) path h p e small = (
  λ _. split-uri c (x ∷ host) path h p e,
  λ nil. cc,
  parse-decimal 9 (port_or_default c.port) [] small,
)
