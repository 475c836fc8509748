-- ===== src/Transport/Hub/Forward.antt =====
-- How often and where `onMessageReceived` of src/Core/Transports/TransportHub.cpp forwards a message.
use mathlib.Core.List.{append_assoc, append-nil}
use io_tsmart_sys_core.Base.{
  ℕ, zero, suc, ◌&&◌, not, Bool, true, false, ◌≡◌, refl, sym, ap, ◌∙◌, inl, inr, List, [], ◌∷◌,
  ◌++◌, Text, Bool-cases, ◌==◌, if◌then◌else◌,
}
use io_tsmart_sys_core.Transport.Hub.{
  Entry, Message, Publication, Dispatcher, is_raw, publication, forward_to, enabled_for_forwarding,
  after_dispatch, on_message_received,
}

-- A raw message goes to every channel that forwards and is not the one that it comes from.
abbrev pub is_target : Message → Entry → Bool
is_target m e =
    is_raw m.kind && (e.channel.forward_raw_messages && not (e.channel.name_address == m.origin))

unfoldable pub targets : Text → Message → List Entry → List Publication
targets topic m [] = []
targets topic m (e ∷ es) =
    let rest = targets topic m es in
    if is_target m e then publication topic m e.channel ∷ rest else rest

-- How many dispatchers refuse the message, each after those before it.
unfoldable pub refusals : {D : Type 0} → Message → List (Dispatcher D) → D → ℕ
refusals m [] d = 0
refusals m (dispatch ∷ ds) d =
    let rest = refusals m ds (dispatch m d).0 in if (dispatch m d).1 then rest else suc rest

unfoldable pub copies : ℕ → List Publication → List Publication
copies zero ps = []
copies (suc n) ps = ps ++ copies n ps

forward_to-targets :
    (topic : Text) (m : Message) (es : List Entry)
    → forward_to topic m (enabled_for_forwarding m.kind es) ≡ targets topic m es
unfolding forward_to enabled_for_forwarding targets
forward_to-targets topic m [] = refl
forward_to-targets topic m (e ∷ es) =
    let later = forward_to-targets topic m es in
    elim (Bool-cases (is_raw m.kind)) [
      | inl all ↦ elim (Bool-cases e.channel.forward_raw_messages) [
        | inl enabled ↦ elim (Bool-cases (e.channel.name_address == m.origin)) [
          | inl own ↦ rw (all, enabled, own) later
          | inr other ↦ rw (all, enabled, other) (ap (◌∷◌ (publication topic m e.channel)) later)
        ]
        | inr shut ↦ rw (all, shut) later
      ]
      | inr not_raw ↦ elim (Bool-cases e.channel.forward_raw_messages) [
        | inl enabled ↦ rw (not_raw, enabled) later
        | inr shut ↦ rw (not_raw, shut) later
      ]
    ]

added :
    {D : Type 0} (topic : Text) (channels : List Entry) (m : Message) (sent : List Publication)
    (done : D × Bool) (rest : ℕ)
    → after_dispatch topic channels m sent done ++ copies rest (targets topic m channels)
      ≡ sent ++ copies (if done.1 then rest else suc rest) (targets topic m channels)
unfolding copies
added topic channels m sent (d, true) rest = refl
added topic channels m sent (d, false) rest =
    rw (forward_to-targets topic m channels)
      (append_assoc sent (targets topic m channels) (copies rest (targets topic m channels)))

-- A message is published once for each dispatcher that refuses it, on every channel that forwards raw
-- messages except the one that it comes from, and on none if it is not raw; what the hub published
-- before stays.
pub forwarded_per_refusal :
    {D : Type 0} (topic : Text) (channels : List Entry) (m : Message) (ds : List (Dispatcher D))
    (d : D) (sent : List Publication)
    → (on_message_received topic channels m ds d sent).1
      ≡ sent ++ copies (refusals m ds d) (targets topic m channels)
unfolding on_message_received refusals copies
forwarded_per_refusal topic channels m [] d sent = sym (append-nil sent)
forwarded_per_refusal topic channels m (dispatch ∷ ds) d sent =
    forwarded_per_refusal topic channels m ds (dispatch m d).0
      (after_dispatch topic channels m sent (dispatch m d))
    ∙ added topic channels m sent (dispatch m d) (refusals m ds (dispatch m d).0)
