-- ===== src/Mqtt/Calls/Messages.antt =====
-- The offline queue and the topics over any sequence of calls.
use io_tsmart_sys_core.Base.{
  ℕ, ◌≤◌, Bool, true, false, ◌≡◌, refl, arith, ◌⊎◌, inl, inr, List, [], ◌∷◌, ◌++◌, Option, Text,
  length, ◌∙◌, ap, sym, subst, ◌||◌, text_eq, text_eq-eq, text_eq_refl, Bool-cases, length-append,
  not, ◌&&◌,
}
use io_tsmart_sys_core.Transport.{TransportConfig, MessageView}
use io_tsmart_sys_core.Mqtt.Queue
use io_tsmart_sys_core.Mqtt.Queue.Refine.{
  IsValid, contents, message, enqueue_refines, pop_refines, clear-IsValid, new-IsValid,
}
use io_tsmart_sys_core.Mqtt.Client.{MqttClient}
use io_tsmart_sys_core.Mqtt.Service.{
  Service, RetryPolicy, publish, republish, contains, mark_disconnected,
}
use io_tsmart_sys_core.Mqtt.Connect.{Env, on_settings_ready}
use io_tsmart_sys_core.Mqtt.Loop.{handle, stop, on_disconnected}
use io_tsmart_sys_core.Mqtt.Loop.Stored.{
  Moved, Grown, empties, handle-Walk, begin-store, subscribe-Grown,
}
use io_tsmart_sys_core.Mqtt.Calls.{
  Call, call_begin, call_handle, call_stop, call_publish, call_republish, call_subscribe,
  call_on_disconnected, call_on_settings_ready, client_moves, gate_cleared, step, run, new,
}

-- No topic stands twice in the list.
abbrev pub all_distinct : List Text → Bool
all_distinct [] = true
all_distinct (t ∷ ts) = not (contains t ts) && all_distinct ts

text_eq-sym : (s t : Text) → text_eq s t ≡ text_eq t s
text_eq-sym s t = elim (Bool-cases (text_eq s t)) [
  | inl same ↦ ground (arith, text_eq-eq s t same, text_eq_refl s)
  | inr differ ↦ elim (Bool-cases (text_eq t s)) [
    | inl same ↦ ground (arith, text_eq-eq t s same, text_eq_refl t)
    | inr differ' ↦ ground arith
  ]
]

contains-snoc :
    (t u : Text) (ts : List Text) → contains u (ts ++ t ∷ []) ≡ contains u ts || text_eq t u
unfolding contains
contains-snoc t u [] = ground arith
contains-snoc t u (x ∷ ts) = ground (arith, contains-snoc t u ts)

all_distinct-snoc :
    (t : Text) (ts : List Text)
    → contains t ts ≡ false
    → all_distinct ts ≡ true
    → all_distinct (ts ++ t ∷ []) ≡ true
unfolding contains
all_distinct-snoc t [] h d = refl
all_distinct-snoc t (x ∷ ts) h d =
    ground (arith, text_eq-sym t x, contains-snoc t x ts, all_distinct-snoc t ts)

-- The queue represents a FIFO, and the topics are at most 12 different ones.
pub record IsStored (queue : Queue.Queue) (topics : List Text) : Type 0 where
  pub queue_IsValid : IsValid queue
  pub topics_len : length topics ≤ 12
  pub distinct : all_distinct topics ≡ true

Moved-IsValid : (b : Bool) (q r : Queue.Queue) → IsValid q → Moved b q r → IsValid r
Moved-IsValid b q r v (inl same) = subst IsValid (sym same) v
Moved-IsValid b q r v (inr (inl (some_left, popped))) =
    subst IsValid (sym popped) (pop_refines q v some_left).0
Moved-IsValid b q r v (inr (inr (_, emptied))) = subst IsValid (sym emptied) (clear-IsValid q v).0

Grown-IsStored :
    (q r : Queue.Queue) (ts us : List Text)
    → IsStored q ts
    → IsValid r
    → Grown ts us
    → IsStored r us
Grown-IsStored q r ts us v w (inl same) = ground arith
Grown-IsStored q r ts us v w (inr (topic, fresh, room, grown)) =
    ground (arith, all_distinct-snoc topic ts fresh v.distinct, length-append ts (topic ∷ []))

module _ (C : MqttClient) where
  -- One call of `handle` on a valid queue, where neither a first connection nor the policy empties
  -- it, leaves the waiting messages as they are, or takes the oldest one off and keeps the others
  -- in their order.
  pub handle_keeps_messages :
      (e : Env) (s : Service C)
      → IsValid s.queue
      → empties C s ≡ false
      → (contents (handle C e s).queue ≡ contents s.queue)
        ⊎ (contents s.queue ≡ message (Queue.front s.queue) ∷ contents (handle C e s).queue)
  handle_keeps_messages e s v keep = elim (handle-Walk C e s).queue [
    | inl same ↦ inl (ap contents same)
    | inr (inl (some_left, popped)) ↦ inr (
        (pop_refines s.queue v some_left).1
        ∙ ap (λ r. message (Queue.front s.queue) ∷ contents r) (sym popped))
    | inr (inr (emptied, _)) ↦ absurd (cc)
  ]

  publish-IsStored :
      (topic : Option Text) (payload : List ℕ) (retain : Bool) (s : Service C)
      → IsStored s.queue s.subs
      → IsStored
          (publish C topic payload retain s).0.queue
          (publish C topic payload retain s).0.subs
  unfolding publish
  publish-IsStored topic payload retain s v =
      ground (arith, enqueue_refines topic payload retain s.queue v.queue_IsValid)

  republish-IsStored :
      (msg : MessageView) (s : Service C)
      → IsStored s.queue s.subs
      → IsStored (republish C msg s).0.queue (republish C msg s).0.subs
  unfolding republish
  republish-IsStored msg s v =
      ground (arith, enqueue_refines msg.topic msg.payload msg.retain s.queue v.queue_IsValid)

  stop-stored :
      (now : ℕ) (s : Service C) → ((stop C now s).queue ≡ s.queue) × ((stop C now s).subs ≡ s.subs)
  unfolding stop mark_disconnected
  stop-stored now s = ground arith

  on_settings_ready-stored :
      (now : ℕ) (s : Service C)
      → ((on_settings_ready C now s).queue ≡ s.queue) × ((on_settings_ready C now s).subs ≡ s.subs)
  unfolding on_settings_ready
  on_settings_ready-stored now s = ground arith

  step-IsStored :
      (c : Call C) (s : Service C)
      → IsStored s.queue s.subs
      → IsStored (step C c s).queue (step C c s).subs
  unfolding step on_disconnected
  step-IsStored (call_begin cfg policy e) s v =
      let (cleared, grown) = begin-store C cfg policy e s in
      Grown-IsStored s.queue _ s.subs _ v
        (subst IsValid (sym cleared) (clear-IsValid s.queue v.queue_IsValid).0) grown
  step-IsStored (call_handle e) s v =
      Grown-IsStored s.queue _ s.subs _ v
        (Moved-IsValid _ s.queue _ v.queue_IsValid (handle-Walk C e s).queue)
        (handle-Walk C e s).topics
  step-IsStored (call_stop now) s v = ground (arith, stop-stored now s)
  step-IsStored (call_publish topic payload retain) s v = publish-IsStored topic payload retain s v
  step-IsStored (call_republish msg) s v = republish-IsStored msg s v
  step-IsStored (call_subscribe topic) s v =
      let (kept, grown) = subscribe-Grown C topic s in
      Grown-IsStored s.queue _ s.subs _ v (subst IsValid (sym kept) v.queue_IsValid) grown
  step-IsStored call_on_disconnected s v = v
  step-IsStored (call_on_settings_ready now) s v = ground (arith, on_settings_ready-stored now s)
  step-IsStored (client_moves client) s v = v
  step-IsStored gate_cleared s v = v

  run-IsStored :
      (cs : List (Call C)) (s : Service C)
      → IsStored s.queue s.subs
      → IsStored (run C cs s).queue (run C cs s).subs
  unfolding run
  run-IsStored [] s v = v
  run-IsStored (c ∷ cs) s v = run-IsStored cs (step C c s) (step-IsStored c s v)

  -- After any sequence of calls on a new service, with any client, the ring of the offline queue is
  -- valid, so that it holds the messages of a FIFO of at most 16, and the remembered topics are at
  -- most 12, no two of them equal.
  pub run-new-IsStored :
      (cs : List (Call C)) (cfg : TransportConfig) (policy : RetryPolicy) (client : C.State)
      → IsStored
          (run C cs (new C cfg policy client)).queue
          (run C cs (new C cfg policy client)).subs
  unfolding new
  run-new-IsStored cs cfg policy client =
      run-IsStored cs (new C cfg policy client) (ground (arith, new-IsValid))
