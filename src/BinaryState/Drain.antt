-- ===== src/BinaryState/Drain.antt =====
-- The writer's drain, and what a caller gets for a save once it is done.
use io_tsmart_sys_core.Base.{
  ℕ, ◌+◌, ◌<◌, Bool, true, false, ◌&&◌, ◌≡◌, ◌≢◌, refl, arith, ◌∙◌, ap, sym, subst, List, [], ◌∷◌,
  text_eq-eq, ◌⊎◌, inl, inr, Bool-cases, some, Text, length, ◌==◌, if◌then◌else◌, u32,
}
use io_tsmart_sys_core.BinaryState.Records.{
  Snapshot, pending_count, StoredRecord, slot_differs, matches, c_str, find_record_index,
}
use io_tsmart_sys_core.BinaryState.Nvs.{map_esp_err, EspErr, esp_ok, current, result_ok}
use io_tsmart_sys_core.BinaryState.Store.{
  Provider, waiting, draining, writing, try_get, lookup, request_save, place, WriteCodes,
  write_and_commit, record_outcome, writer_step, writer_step_at,
}
use io_tsmart_sys_core.BinaryState.View.{NoZero}
use io_tsmart_sys_core.BinaryState.Valid.{pending_count_self}
use io_tsmart_sys_core.BinaryState.Save.{request_save-Accepted}

-- A write whose NVS calls all succeed.
abbrev pub writes_fine : WriteCodes
writes_fine = record { open_namespace = esp_ok; set_blob = esp_ok; commit = esp_ok }

-- The writer's steps for one notification: wake up, look, write, look again.
abbrev pub drain : WriteCodes → Provider → Provider
drain codes p = writer_step codes (writer_step codes (writer_step codes (writer_step codes p)))

wakes :
    (codes : WriteCodes) (p : Provider)
    → p.phase ≡ waiting
    → p.notified ≡ true
    → writer_step codes p ≡ record p { phase = draining; notified = false }
unfolding writer_step writer_step_at
wakes codes p idle told = ground arith

rests :
    (codes : WriteCodes) (p : Provider)
    → p.phase ≡ waiting
    → p.notified ≡ false
    → writer_step codes p ≡ p
unfolding writer_step writer_step_at
rests codes p k quiet = ground arith

looks :
    (codes : WriteCodes) (p : Provider)
    → p.phase ≡ draining
    → writer_step codes p ≡ (
        if pending_count p.desired.records p.committed.records == 0
        then record p { phase = waiting }
        else record p { phase = writing p.desired; write_in_progress = true })
unfolding writer_step writer_step_at
looks codes p k = ground arith

commits :
    (attempt : Snapshot) (p : Provider)
    → p.phase ≡ writing attempt
    → writer_step writes_fine p ≡ record p {
      writes = u32 (p.writes + 1);
      flash = some (current attempt);
      write_in_progress = false;
      committed = attempt;
      commits = u32 (p.commits + 1);
      last_error = result_ok;
      phase = draining;
    }
unfolding writer_step writer_step_at write_and_commit record_outcome
commits attempt p k = ground arith

-- What a drain leaves: the desired snapshot is the committed one, unless they agree already.
record Drained (p q : Provider) : Type 0 where
  phase : q.phase ≡ waiting
  cached : q.cache_loaded ≡ p.cache_loaded
  desired : q.desired ≡ p.desired
  committed :
      (q.committed ≡ p.desired)
      ⊎ ((q.committed ≡ p.committed) × (pending_count p.desired.records p.committed.records ≡ 0))

drain-Drained :
    (p : Provider) → p.phase ≡ waiting → p.notified ≡ true → Drained p (drain writes_fine p)
drain-Drained p idle told =
    elim (Bool-cases (pending_count p.desired.records p.committed.records == 0)) [
      | inl none_left ↦
          let asleep : Provider = record awake { phase = waiting } in
          let look : ws awake ≡ asleep = looks writes_fine awake refl ∙ ground arith in
          let rest : ws asleep ≡ asleep = rests writes_fine asleep refl refl in
          let all = four awake asleep asleep asleep woken look rest rest in
          subst (Drained p) (sym all) (record {
            phase = refl;
            cached = refl;
            desired = refl;
            committed = inr (refl, ground arith);
          })
      | inr some_left ↦
          let busy : Provider = record awake {
            phase = writing p.desired;
            write_in_progress = true;
          } in
          let written : Provider = record busy {
            writes = u32 (p.writes + 1);
            flash = some (current p.desired);
            write_in_progress = false;
            committed = p.desired;
            commits = u32 (p.commits + 1);
            last_error = result_ok;
            phase = draining;
          } in
          let asleep : Provider = record written { phase = waiting } in
          let look : ws awake ≡ busy = looks writes_fine awake refl ∙ ground arith in
          let write : ws busy ≡ written = commits p.desired busy refl in
          let done : ws written ≡ asleep =
            looks writes_fine written refl ∙ ground (arith, pending_count_self p.desired.records) in
          let all = four awake busy written asleep woken look write done in
          subst (Drained p) (sym all)
            (record { phase = refl; cached = refl; desired = refl; committed = inl refl })
    ]
  where
    ws : Provider → Provider
    ws = writer_step writes_fine

    awake : Provider
    awake = record p { phase = draining; notified = false }

    woken : ws p ≡ awake
    woken = wakes writes_fine p idle told

    four :
        (a b c d : Provider) → ws p ≡ a → ws a ≡ b → ws b ≡ c → ws c ≡ d → ws (ws (ws (ws p))) ≡ d
    four a b c d e f g h = ap (λ q. ws (ws (ws q))) e ∙ ap (λ q. ws (ws q)) f ∙ ap ws g ∙ h

slot-same :
    (name type : Text) (d c : StoredRecord)
    → slot_differs d c ≡ false
    → (matches name type d ≡ matches name type c) × ((d.is_on == 0) ≡ (c.is_on == 0))
unfolding slot_differs matches
slot-same name type d c h = ground (
  arith,
  text_eq-eq (c_str d.capability_name) (c_str c.capability_name),
  text_eq-eq (c_str d.type) (c_str c.type),
)

lookup_agrees :
    (name type : Text) (ds cs : List StoredRecord)
    → length ds ≡ length cs
    → pending_count ds cs ≡ 0
    → lookup name type ds ≡ lookup name type cs
unfolding lookup pending_count find_record_index
lookup_agrees name type [] [] l h = refl
lookup_agrees name type [] (c ∷ cs) l h = absurd (omega arith)
lookup_agrees name type (d ∷ ds) [] l h = absurd (omega arith)
lookup_agrees name type (d ∷ ds) (c ∷ cs) l h =
    ground (arith, slot-same name type d c, lookup_agrees name type ds cs)

try_get_lookup :
    (name type : Text) (p : Provider)
    → p.cache_loaded ≡ true
    → try_get (some name) (some type) p ≡ lookup name type p.committed.records
unfolding try_get
try_get_lookup name type p h = ground arith

-- After a drain the committed records give every identity the state that was desired.
settled :
    (name type : Text) (p q : Provider)
    → Drained p q
    → length p.desired.records ≡ length p.committed.records
    → lookup name type q.committed.records ≡ lookup name type p.desired.records
settled name type p q d size = elim d.committed [
  | inl written ↦ ap (λ c. lookup name type c.records) written
  | inr (kept, nothing) ↦
      ap (λ c. lookup name type c.records) kept
      ∙ sym (lookup_agrees name type p.desired.records p.committed.records size nothing)
]

-- A save that is accepted while the writer waits is what `tryGet` answers once the writer has run,
-- if its NVS calls succeed; until then `tryGet` answers as before.
pub save_committed :
    (name type : Text) (is_on : Bool) (i : ℕ) (p : Provider)
    → NoZero name
    → NoZero type
    → 0 < length name
    → 0 < length type
    → length name < 64
    → length type < 32
    → p.writer_available ≡ true
    → p.cache_loaded ≡ true
    → p.phase ≡ waiting
    → length p.desired.records ≡ length p.committed.records
    → place name type p.desired.records ≡ some i
    → (try_get (some name) (some type) (request_save (some name) (some type) is_on p).0
        ≡ try_get (some name) (some type) p)
      × (try_get
            (some name)
            (some type)
            (drain writes_fine (request_save (some name) (some type) is_on p).0)
          ≡ some is_on)
save_committed name type is_on i p hn ht pn pt ln lt ready cached idle same free =
    let a = request_save-Accepted name type is_on i p hn ht pn pt ln lt ready free in
    let q = (request_save (some name) (some type) is_on p).0 in
    let d = drain-Drained q (a.phase ∙ idle) a.notified in
    (
      try_get_lookup name type q (a.cached ∙ cached)
          ∙ ap (λ c. lookup name type c.records) a.committed
          ∙ sym (try_get_lookup name type p cached),
      try_get_lookup name type (drain writes_fine q) (d.cached ∙ a.cached ∙ cached)
          ∙ settled name type q (drain writes_fine q) d
              (a.size ∙ same ∙ ap (λ c. length c.records) (sym a.committed))
          ∙ a.saved,
    )

abbrev pub is_ok : EspErr → Bool
is_ok esp_ok = true
is_ok _ = false

-- Where one of the NVS calls of a write fails, the writer leaves the committed snapshot, flash and
-- the desired snapshot as they were, counts one failure and notes an error, and goes back to wait
-- for a notification.
pub failed_write_keeps :
    (attempt : Snapshot) (codes : WriteCodes) (p : Provider)
    → p.phase ≡ writing attempt
    → is_ok codes.open_namespace && (is_ok codes.set_blob && is_ok codes.commit) ≡ false
    → ((writer_step codes p).committed ≡ p.committed)
      × ((writer_step codes p).flash ≡ p.flash)
      × ((writer_step codes p).desired ≡ p.desired)
      × ((writer_step codes p).failures ≡ u32 (p.failures + 1))
      × ((writer_step codes p).last_error ≢ result_ok)
      × ((writer_step codes p).phase ≡ waiting)
unfolding writer_step writer_step_at write_and_commit record_outcome map_esp_err
failed_write_keeps attempt codes p k failing = ground arith
