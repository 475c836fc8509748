-- ===== src/Mqtt/Queue/Fifo.antt =====
-- What the offline queue promises: at most 16 messages, oldest first, each with a topic of 1 to 127
-- bytes and a payload of at most 256.
use io_tsmart_sys_core.Base.{
  ℕ, Bool, true, false, ◌&&◌, List, [], ◌∷◌, ◌++◌, Option, none, some, Text, length, leb, ltb,
  if◌then◌else◌,
}

pub record Message : Type 0 where
  pub topic : Text
  pub retain : Bool
  pub bytes : List ℕ

abbrev pub Fifo : Type 0
Fifo = List Message

unfoldable pub accepts : Option Text → List ℕ → Fifo → Bool
accepts none payload q = false
accepts (some topic) payload q =
    ltb 0 (length topic)
    && (ltb (length topic) 128 && (leb (length payload) 256 && ltb (length q) 16))

abbrev topic_or_nil : Option Text → Text
topic_or_nil none = []
topic_or_nil (some t) = t

unfoldable pub offer : Option Text → List ℕ → Bool → Fifo → Fifo × Bool
unfolding accepts
offer topic payload retain q =
    if accepts topic payload q
    then (q ++ (record { topic = topic_or_nil topic; retain = retain; bytes = payload } ∷ []), true)
    else (q, false)

pub rest : Fifo → Fifo
rest [] = []
rest (m ∷ q) = q
