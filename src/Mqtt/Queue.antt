-- ===== src/Mqtt/Queue.antt =====
-- The offline queue of `MqttService`: a ring of 16 slots that are written in place.
pub mod Fifo
pub mod Refine
use io_tsmart_sys_core.Base.{
  ℕ, suc, ◌+◌, ◌-◌, ◌%◌, Bool, true, false, List, [], ◌∷◌, Option, none, some, Text, length, get_or,
  set, replicate, leb, ltb, ◌==◌, if◌then◌else◌, u32,
}

abbrev pub queue_len : ℕ
queue_len = 16

abbrev pub max_payload : ℕ
max_payload = 256

abbrev pub max_topic_len : ℕ
max_topic_len = 128

-- `payload` is the whole array; only its first `len` bytes belong to the message.
pub record QueuedMsg : Type 0 where
  pub topic : Text
  pub retain : Bool
  pub len : ℕ
  pub payload : List ℕ

-- `MqttOfflineQueueStats`, uint32 counters.
pub record QueueStats : Type 0 where
  pub enqueued : ℕ
  pub drained : ℕ
  pub dropped_invalid_topic : ℕ
  pub dropped_topic_too_long : ℕ
  pub dropped_payload_too_big : ℕ
  pub dropped_queue_full : ℕ

pub record Queue : Type 0 where
  pub slots : List QueuedMsg
  pub head : ℕ
  pub tail : ℕ
  pub count : ℕ
  pub stats : QueueStats

unfoldable pub blank : QueuedMsg
blank = record { topic = []; retain = false; len = 0; payload = replicate max_payload 0 }

abbrev pub no_stats : QueueStats
no_stats = record {
  enqueued = 0;
  drained = 0;
  dropped_invalid_topic = 0;
  dropped_topic_too_long = 0;
  dropped_payload_too_big = 0;
  dropped_queue_full = 0;
}

unfoldable pub new : Queue
unfolding blank
new = record { slots = replicate queue_len blank; head = 0; tail = 0; count = 0; stats = no_stats }

-- `_qHead = _qTail = _qCount = 0`, in `begin` and in `clearQueue`.
unfoldable pub clear : Queue → Queue
clear q = record q { head = 0; tail = 0; count = 0 }

-- The copy loop writes the first bytes of the array and leaves the others.
unfoldable pub overwrite : List ℕ → List ℕ → List ℕ
overwrite [] old = old
overwrite (b ∷ bs) [] = []
overwrite (b ∷ bs) (o ∷ os) = b ∷ overwrite bs os

abbrev pub slot : Queue → ℕ → QueuedMsg
slot q i = get_or q.slots i blank

-- What the copies make of a slot; `len` is narrowed to uint16.
unfoldable pub written : Text → List ℕ → Bool → QueuedMsg → QueuedMsg
written topic payload retain old = record {
  topic = topic;
  retain = retain;
  len = length payload % 65536;
  payload = overwrite payload old.payload;
}

store : Text → List ℕ → Bool → Queue → Queue
store topic payload retain q = record q {
  slots = set q.slots q.tail (written topic payload retain (slot q q.tail));
  tail = (q.tail + 1) % queue_len;
  count = q.count + 1;
  stats = record s { enqueued = u32 (s.enqueued + 1) };
}
  where
    open q use {stats as s}

abbrev counted : (QueueStats → QueueStats) → Queue → Queue
counted f q = record q { stats = f q.stats }

-- The checks behind that of an empty topic.
enqueue_checked : Text → List ℕ → Bool → Queue → Queue × Bool
unfolding store
enqueue_checked topic payload retain q =
    if leb max_topic_len (length topic)
    then (
      counted (λ s. record s { dropped_topic_too_long = u32 (s.dropped_topic_too_long + 1) }) q,
      false,
    )
    else if ltb max_payload (length payload)
    then (
      counted (λ s. record s { dropped_payload_too_big = u32 (s.dropped_payload_too_big + 1) }) q,
      false,
    )
    else if leb queue_len q.count
    then (counted (λ s. record s { dropped_queue_full = u32 (s.dropped_queue_full + 1) }) q, false)
    else (store topic payload retain q, true)

-- A null topic is `none`; a topic and a payload come with their lengths.
unfoldable pub enqueue : Option Text → List ℕ → Bool → Queue → Queue × Bool
unfolding enqueue_checked
enqueue none payload retain q =
    (counted (λ s. record s { dropped_invalid_topic = u32 (s.dropped_invalid_topic + 1) }) q, false)
enqueue (some []) payload retain q =
    (counted (λ s. record s { dropped_invalid_topic = u32 (s.dropped_invalid_topic + 1) }) q, false)
enqueue (some (c ∷ cs)) payload retain q = enqueue_checked (c ∷ cs) payload retain q

pub front : Queue → QueuedMsg
front q = slot q q.head

-- The end of `drainQueue`, behind its guards and a publish that succeeded.
unfoldable pub pop : Queue → Queue
pop q = record q {
  head = (q.head + 1) % queue_len;
  count = q.count - 1;
  stats = record s { drained = u32 (s.drained + 1) };
}
  where
    open q use {stats as s}
