-- ===== src/Mqtt/Queue/Refine.antt =====
-- The ring of slots is the bounded FIFO of the messages between head and tail.
use native.Mathlib.Numerals.{add-one}
use io_tsmart_sys_core.Base.{
  ℕ, zero, suc, ◌+◌, ◌-◌, ◌%◌, ◌≤◌, ◌<◌, Bool, ◌≡◌, refl, ap, ap₂, ◌∙◌, List, [], ◌∷◌, ◌++◌, Option,
  none, some, Text, arith, length, get_or, set, take, length-set, get_or-set_self, get_or-set_ne,
}
use io_tsmart_sys_core.Mqtt.Queue.{
  Queue, QueuedMsg, blank, slot, overwrite, written, store, enqueue, front, pop, new, clear,
}
use io_tsmart_sys_core.Mqtt.Queue.Fifo.{Fifo, Message, accepts, offer}

abbrev pub message : QueuedMsg → Message
message m = record { topic = m.topic; retain = m.retain; bytes = take m.len m.payload }

-- The `n` messages from index `h` on, going round at 16.
abbrev window : List QueuedMsg → ℕ → ℕ → Fifo
window slots h zero = []
window slots h (suc n) = message (get_or slots h blank) ∷ window slots ((h + 1) % 16) n

abbrev pub contents : Queue → Fifo
contents q = window q.slots q.head q.count

length-window : (slots : List QueuedMsg) (h n : ℕ) → length (window slots h n) ≡ n
length-window slots h zero = refl
length-window slots h (suc n) = ap suc (length-window slots ((h + 1) % 16) n)

-- Every payload array has its full size.
abbrev Arrays : List QueuedMsg → Type 0
Arrays [] = Unit {0}
Arrays (m ∷ ms) = (length m.payload ≡ 256) × Arrays ms

pub record IsValid (q : Queue) : Type 0 where
  pub slots_len : length q.slots ≡ 16
  pub arrays : Arrays q.slots
  pub head_in : q.head < 16
  pub tail_at : q.tail ≡ (q.head + q.count) % 16
  pub count_in : q.count ≤ 16

Arrays-set :
    (ms : List QueuedMsg) (i : ℕ) (m : QueuedMsg)
    → length m.payload ≡ 256
    → Arrays ms
    → Arrays (set ms i m)
Arrays-set [] i m h a = tt
Arrays-set (x ∷ ms) zero m h a = (h, a.1)
Arrays-set (x ∷ ms) (suc i) m h a = (a.0, Arrays-set ms i m h a.1)

Arrays-get_or : (ms : List QueuedMsg) (i : ℕ) → Arrays ms → length (get_or ms i blank).payload ≡ 256
unfolding blank
Arrays-get_or [] i a = refl
Arrays-get_or (x ∷ ms) zero a = a.0
Arrays-get_or (x ∷ ms) (suc i) a = Arrays-get_or ms i a.1

length-overwrite : (bs os : List ℕ) → length bs ≤ length os → length (overwrite bs os) ≡ length os
unfolding overwrite
length-overwrite [] os h = refl
length-overwrite (b ∷ bs) [] h = refl
length-overwrite (b ∷ bs) (o ∷ os) h = omega (arith, length-overwrite bs os)

take-overwrite : (bs os : List ℕ) → length bs ≤ length os → take (length bs) (overwrite bs os) ≡ bs
unfolding overwrite
take-overwrite [] os h = refl
take-overwrite (b ∷ bs) [] h = absurd (omega arith)
take-overwrite (b ∷ bs) (o ∷ os) h = ap (◌∷◌ b) (take-overwrite bs os (omega arith))

-- Writing just past a window extends it by that message.
window-set :
    (slots : List QueuedMsg) (m : QueuedMsg) (n h i : ℕ)
    → length slots ≡ 16
    → h < 16
    → n < 16
    → i ≡ (h + n) % 16
    → window (set slots i m) h (suc n) ≡ window slots h n ++ message m ∷ []
window-set slots m zero h i s hh hn e =
    let at : i ≡ h = omega arith in
    rw at (ap (λ x. message x ∷ []) (get_or-set_self slots h m blank (omega arith)))
window-set slots m (suc n) h i s hh hn e =
    ap₂ ◌∷◌ (ap message (get_or-set_ne slots m blank (omega arith)))
      (window-set slots m n ((h + 1) % 16) i s (omega arith) (omega arith) (omega arith))

module _ (topic : Text) (payload : List ℕ) (retain : Bool) where
  written-message :
      (old : QueuedMsg)
      → length payload ≤ 256
      → length old.payload ≡ 256
      → (message (written topic payload retain old)
          ≡ record { topic = topic; retain = retain; bytes = payload })
        × (length (written topic payload retain old).payload ≡ 256)
  unfolding written
  written-message old p h =
      let fits : length payload % 65536 ≡ length payload = omega arith in
      (
        rw (fits, take-overwrite payload old.payload (omega arith)),
        length-overwrite payload old.payload (omega arith) ∙ h,
      )

  store-contents :
      (q : Queue)
      → IsValid q
      → length payload ≤ 256
      → q.count < 16
      → IsValid (store topic payload retain q)
        × (contents (store topic payload retain q)
            ≡ contents q ++ record { topic = topic; retain = retain; bytes = payload } ∷ [])
  unfolding store
  store-contents q v p c = (
    record {
      slots_len = length-set q.slots q.tail m ∙ v.slots_len;
      arrays = Arrays-set q.slots q.tail m full v.arrays;
      head_in = v.head_in;
      tail_at = omega (arith, v.tail_at);
      count_in = omega arith;
    },
    rw (add-one) (
        window-set q.slots m q.count q.head q.tail v.slots_len v.head_in c v.tail_at
        ∙ ap (λ x. contents q ++ x ∷ []) same),
  )
    where
      m : QueuedMsg
      m = written topic payload retain (slot q q.tail)

      same : message m ≡ record { topic = topic; retain = retain; bytes = payload }
      same = (written-message (slot q q.tail) p (Arrays-get_or q.slots q.tail v.arrays)).0

      full : length m.payload ≡ 256
      full = (written-message (slot q q.tail) p (Arrays-get_or q.slots q.tail v.arrays)).1

-- `enqueue` gives the answer of the FIFO and leaves the ring holding its messages; it keeps the
-- representation valid.
pub enqueue_refines :
    (topic : Option Text) (payload : List ℕ) (retain : Bool) (q : Queue)
    → IsValid q
    → IsValid (enqueue topic payload retain q).0
      × ((contents (enqueue topic payload retain q).0, (enqueue topic payload retain q).1)
          ≡ offer topic payload retain (contents q))
unfolding enqueue offer accepts
enqueue_refines none payload retain q v = ground arith
enqueue_refines (some []) payload retain q v = ground arith
enqueue_refines (some (c ∷ cs)) payload retain q v =
    ground (arith, length-window q.slots q.head q.count, store-contents (c ∷ cs) payload retain q v)

window_of_pos :
    (slots : List QueuedMsg) (h n : ℕ)
    → 0 < n
    → window slots h n ≡ message (get_or slots h blank) ∷ window slots ((h + 1) % 16) (n - 1)
window_of_pos slots h zero p = elim p [ ]
window_of_pos slots h (suc n) p = ap (λ k. window slots h (suc k)) (omega arith)

-- Where the queue is not empty, `front` is the oldest message, and `pop` leaves the others.
pub pop_refines :
    (q : Queue)
    → IsValid q
    → 0 < q.count
    → IsValid (pop q) × (contents q ≡ message (front q) ∷ contents (pop q))
unfolding pop front
pop_refines q v p = ground (arith, window_of_pos q.slots q.head q.count)

pub clear-IsValid : (q : Queue) → IsValid q → IsValid (clear q) × (contents (clear q) ≡ [])
unfolding clear
clear-IsValid q v = ground arith

pub new-IsValid : IsValid new × (contents new ≡ [])
unfolding new
new-IsValid = ground arith
