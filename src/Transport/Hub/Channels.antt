-- ===== src/Transport/Hub/Channels.antt =====
-- The channels of a hub (src/Core/Transports/TransportHub.cpp) have different names.
use io_tsmart_sys_core.Base.{
  false, ◌≡◌, refl, ◌∙◌, inl, inr, List, [], ◌∷◌, ◌++◌, none, Text, text_eq, arith, Bool-cases,
  Option-cases, text_eq-eq, text_eq_refl,
}
use io_tsmart_sys_core.Transport.Hub.{Channel, Entry, get_channel, add_channel, remove_channel}

-- No two channels have one name.
abbrev pub Distinct : List Entry → Type 0
Distinct [] = Unit {0}
Distinct (e ∷ es) = (get_channel e.name es ≡ none) × Distinct es

pub data Call : Type 0 where
  add : Text → Channel → Call
  remove : Text → Call
  clear : Call

unfoldable pub step : Call → List Entry → List Entry
step (add name channel) es = (add_channel name channel es).0
step (remove name) es = remove_channel name es
step clear es = []

unfoldable pub run : List Call → List Entry → List Entry
run [] es = es
run (c ∷ cs) es = run cs (step c es)

get_cons :
    (name : Text) (e : Entry) (es : List Entry)
    → get_channel name (e ∷ es) ≡ none
    → (text_eq e.name name ≡ false) × (get_channel name es ≡ none)
unfolding get_channel
get_cons name e es gone = ground arith

get_later :
    (name : Text) (e : Entry) (es : List Entry)
    → text_eq e.name name ≡ false
    → get_channel name (e ∷ es) ≡ get_channel name es
unfolding get_channel
get_later name e es other = rw other refl

get_nil : (name : Text) → get_channel name [] ≡ none
unfolding get_channel
get_nil name = refl

text_eq_flip : (a b : Text) → text_eq a b ≡ false → text_eq b a ≡ false
text_eq_flip a b h = elim (Bool-cases (text_eq b a)) [
  | inl same ↦ let e = text_eq-eq b a same in let r = text_eq_refl a in cc
  | inr other ↦ other
]

get-append :
    (name : Text) (es : List Entry) (e : Entry)
    → get_channel name es ≡ none
    → text_eq e.name name ≡ false
    → get_channel name (es ++ e ∷ []) ≡ none
get-append name [] e gone other = get_later name e [] other ∙ get_nil name
get-append name (f ∷ es) e gone other =
    let g = get_cons name f es gone in
    get_later name f (es ++ e ∷ []) g.0 ∙ get-append name es e g.1 other

append-Distinct :
    (es : List Entry) (e : Entry)
    → Distinct es
    → get_channel e.name es ≡ none
    → Distinct (es ++ e ∷ [])
append-Distinct [] e d gone = (get_nil e.name, tt)
append-Distinct (f ∷ es) e d gone =
    let g = get_cons e.name f es gone in
    (get-append f.name es e d.0 (text_eq_flip f.name e.name g.0), append-Distinct es e d.1 g.1)

add_channel-Distinct :
    (name : Text) (channel : Channel) (es : List Entry)
    → Distinct es
    → Distinct (add_channel name channel es).0
unfolding add_channel
add_channel-Distinct name channel es d = elim (Option-cases (get_channel name es)) [
  | inl free ↦ rw (free, add_channel) (append-Distinct es _ d free)
  | inr (c, taken) ↦ rw (taken, add_channel) d
]

get-remove :
    (name other : Text) (es : List Entry)
    → get_channel name es ≡ none
    → get_channel name (remove_channel other es) ≡ none
unfolding remove_channel
get-remove name other [] gone = gone
get-remove name other (e ∷ es) gone =
    let g = get_cons name e es gone in
    elim (Bool-cases (text_eq e.name other)) [
      | inl found ↦ rw found g.1
      | inr later ↦
          rw later (get_later name e (remove_channel other es) g.0 ∙ get-remove name other es g.1)
    ]

remove_channel-Distinct :
    (name : Text) (es : List Entry) → Distinct es → Distinct (remove_channel name es)
unfolding remove_channel
remove_channel-Distinct name [] d = tt
remove_channel-Distinct name (e ∷ es) d = elim (Bool-cases (text_eq e.name name)) [
  | inl found ↦ rw found d.1
  | inr later ↦ rw later (get-remove e.name name es d.0, remove_channel-Distinct name es d.1)
]

removed_gone :
    (name : Text) (es : List Entry) → Distinct es → get_channel name (remove_channel name es) ≡ none
unfolding remove_channel
removed_gone name [] d = get_nil name
removed_gone name (e ∷ es) d = elim (Bool-cases (text_eq e.name name)) [
  | inl found ↦ rw found (let same = text_eq-eq e.name name found in rw same at d.0)
  | inr later ↦
      rw later (get_later name e (remove_channel name es) later ∙ removed_gone name es d.1)
]

run-Distinct : (cs : List Call) (es : List Entry) → Distinct es → Distinct (run cs es)
unfolding run step
run-Distinct [] es d = d
run-Distinct (add name channel ∷ cs) es d =
    run-Distinct cs _ (add_channel-Distinct name channel es d)
run-Distinct (remove name ∷ cs) es d = run-Distinct cs _ (remove_channel-Distinct name es d)
run-Distinct (clear ∷ cs) es d = run-Distinct cs [] tt

-- After any sequence of additions, removals and clearings of a new hub, no two channels have one
-- name, so that a name that is removed is not found any more.
pub removed_name_is_free :
    (cs : List Call) (name : Text)
    → Distinct (run cs []) × (get_channel name (remove_channel name (run cs [])) ≡ none)
removed_name_is_free cs name = let d = run-Distinct cs [] tt in (d, removed_gone name (run cs []) d)
