-- ===== src/Transport/Hub.antt =====
-- `TransportHub` of src/Core/Transports/TransportHub.cpp. A channel's name is compared as a text where
-- the hub looks a channel up, and as a pointer where it forwards, so a channel has the address of its
-- own name beside the name that it is added under.
pub mod Channels
pub mod Forward
mod Tests
use io_tsmart_sys_core.Base.{
  ℕ, ◌&&◌, Bool, true, false, List, [], ◌∷◌, ◌++◌, Option, none, some, Text, text_eq, ◌==◌,
  if◌then◌else◌,
}
use io_tsmart_sys_core.Transport.{TransportKind, raw}

pub record Channel : Type 0 where
  pub id : ℕ
  pub name_address : ℕ
  pub forward_raw_messages : Bool

-- `ChannelEntry`
pub record Entry : Type 0 where
  pub name : Text
  pub channel : Channel

-- What dispatchers and hub read of a message; `origin` is an address, and 0 for a null pointer.
pub record Message : Type 0 where
  pub payload : Text
  pub retain : Bool
  pub kind : TransportKind
  pub origin : ℕ

-- A call of `publish` on the channel of that id.
pub record Publication : Type 0 where
  pub channel : ℕ
  pub topic : Text
  pub payload : Text
  pub retain : Bool

unfoldable pub get_channel : Text → List Entry → Option Channel
get_channel name [] = none
get_channel name (e ∷ es) =
    let rest = get_channel name es in if text_eq e.name name then some e.channel else rest

unfoldable pub add_channel : Text → Channel → List Entry → List Entry × Bool
unfolding get_channel
add_channel name channel es = elim (get_channel name es) [
  | some _ ↦ (es, false)
  | none ↦ (es ++ record { name = name; channel = channel } ∷ [], true)
]

unfoldable pub remove_channel : Text → List Entry → List Entry
remove_channel name [] = []
remove_channel name (e ∷ es) =
    let rest = remove_channel name es in if text_eq e.name name then es else e ∷ rest

abbrev pub is_raw : TransportKind → Bool
is_raw raw = true
is_raw _ = false

-- `getChannelsEnabledForForwarding`
unfoldable pub enabled_for_forwarding : TransportKind → List Entry → List Channel
enabled_for_forwarding kind [] = []
enabled_for_forwarding kind (e ∷ es) =
    let rest = enabled_for_forwarding kind es in
    if e.channel.forward_raw_messages && is_raw kind then e.channel ∷ rest else rest

abbrev pub publication : Text → Message → Channel → Publication
publication topic m c = record {
  channel = c.id;
  topic = topic;
  payload = m.payload;
  retain = m.retain;
}

-- The inner loop: the channel that the message comes from is passed over.
unfoldable pub forward_to : Text → Message → List Channel → List Publication
forward_to topic m [] = []
forward_to topic m (c ∷ cs) =
    let rest = forward_to topic m cs in
    if c.name_address == m.origin then rest else publication topic m c ∷ rest

-- Dispatchers over the state that they change.
abbrev pub Dispatcher : Type 0 → Type 0
Dispatcher D = Message → D → D × Bool

module _ {D : Type 0} (topic : Text) (channels : List Entry) (m : Message) where
  abbrev pub after_dispatch : List Publication → D × Bool → List Publication
  after_dispatch sent done =
      if done.1 then sent else sent ++ forward_to topic m (enabled_for_forwarding m.kind channels)

  -- `onMessageReceived`, with what was published so far.
  unfoldable pub on_message_received :
      List (Dispatcher D) → D → List Publication → D × List Publication
  unfolding forward_to enabled_for_forwarding
  on_message_received [] d sent = (d, sent)
  on_message_received (dispatch ∷ ds) d sent =
      on_message_received ds (dispatch m d).0 (after_dispatch sent (dispatch m d))
