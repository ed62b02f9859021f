-- ===== src/Rca/Delivery/Published.antt =====
-- Accepted events are the last entries of the stream.
use lag_radar.Base.{
  ℕ, suc, ◌+◌, ◌≤◌, ◌≡◌, refl, sym, ap, ◌∙◌, Bool, true, false, not, if◌then◌else◌, List, [], ◌∷◌,
  ◌++◌, none, length, length-append, arith, append-nil, append_assoc,
}
use lag_radar.Base.Text.{Str}
use lag_radar.Base.Result.{Result, ok}
use lag_radar.Rca.Events.{KafkaLagEvent}
use lag_radar.Rca.Publisher.{
  StreamEntry, Redis, Codec, EventPublisher, Returns, event_of, stream_entry, dedupe_key,
  add_with_retries, after_marshal, publish_entry, publish_partition_event,
}
use lag_radar.Rca.Consumer.{ConsumerConfig, Streams}
use lag_radar.Rca.Delivery.{
  max_len, IsStream, Report, publish_report, publish_all, event_for, IsAccepted, AllAccepted,
  Carries,
}

else_of : {A : Type 0} {y : A} (x : A) (b : Bool) → b ≡ true → (if not b then x else y) ≡ y
else_of x true on = refl
else_of x false on = absurd (ground arith)

module _ {F S : Type 0} (codec : Codec F) (redis : Redis S) (p : EventPublisher) {k : ℕ}
    (attempts : p.config.max_retries ≡ suc k) where
  publish_entry-ok :
      (e : KafkaLagEvent F) (payload : Str) (s : S) {id : Str}
      → let added = redis.x_add e.timestamp p.config.stream_key (stream_entry e payload) s in
        added.0 ≡ ok id → publish_entry codec redis p e payload s ≡ (none, added.1)
  unfolding publish_entry add_with_retries
  publish_entry-ok e payload s added = simp (attempts, added)

  after_marshal-ok :
      (e : KafkaLagEvent F) (payload : Str) (s : S) {id : Str}
      → let set = redis.set_nx e.timestamp (dedupe_key e.fingerprint) p.config.de_dupe_window s in
        let added = redis.x_add e.timestamp p.config.stream_key (stream_entry e payload) set.1 in
        codec.marshal e ≡ ok payload
        → set.0 ≡ ok true
        → added.0 ≡ ok id
        → after_marshal codec redis p e (codec.marshal e) s ≡ (none, added.1)
  after_marshal-ok e payload s marshals new added =
      rw (marshals, new) (publish_entry-ok e payload _ added)

module _ {F S : Type 0} (codec : Codec F) (redis : Redis S) (streams : Streams S)
    (unmarshal : Str → Result ℕ (KafkaLagEvent F)) (p : EventPublisher) (config : ConsumerConfig)
    (pending : S → List (Str × StreamEntry)) (laws : IsStream redis streams config pending)
    (on : p.enabled ≡ true) {k : ℕ} (attempts : p.config.max_retries ≡ suc k)
    (one_stream : p.config.stream_key ≡ config.stream_key) where
  if_enabled :
      (r : Report F) (s : S)
      → publish_report codec redis p r s
        ≡ (after_marshal codec redis p
            (event_for codec p r)
            (codec.marshal (event_for codec p r))
            s).1
  unfolding publish_partition_event event_for
  if_enabled r s = ap (λ (t : Returns S). t.1) (else_of (none, s) p.enabled on)

  publish_report-pending :
      (r : Report F) (s : S)
      → (accepted : IsAccepted codec redis p unmarshal r s) → suc (length (pending s)) ≤ max_len
      → pending (publish_report codec redis p r s)
        ≡ pending s ++ (accepted.1, stream_entry (event_for codec p r) accepted.0) ∷ []
  unfolding publish_partition_event event_for event_of
  publish_report-pending r s (payload, id, marshals, decodes, new, added) room =
      let key = dedupe_key (event_for codec p r).fingerprint in
      let entry = stream_entry (event_for codec p r) payload in
      let set = redis.set_nx r.now key p.config.de_dupe_window s in
      let same = laws.set_nx_pending r.now key p.config.de_dupe_window s in
      let last =
        laws.x_add_pending r.now p.config.stream_key entry set.1 one_stream added (rw same room) in
      let published : publish_report codec redis p r s
          ≡ (redis.x_add r.now p.config.stream_key entry set.1).1 =
        if_enabled r s
        ∙ ap (λ t. t.1)
            (after_marshal-ok codec redis p attempts (event_for codec p r) payload s marshals new
              added) in
      ap pending published ∙ last ∙ ap (λ es. es ++ (id, entry) ∷ []) same

  -- Accepted events are the last entries of the stream, in the order of their publication.
  pub publish_all-pending :
      (rs : List (Report F)) (s : S)
      → AllAccepted codec redis p unmarshal rs s
      → length (pending s) + length rs ≤ max_len
      → (entries : List (Str × StreamEntry)) × (pending (publish_all codec redis p rs s)
          ≡ pending s ++ entries)
        × Carries codec p unmarshal entries rs
  unfolding publish_all stream_entry
  publish_all-pending [] s accepted room = ([], sym (append-nil (pending s)), tt)
  publish_all-pending (r ∷ rs) s (first, others) room =
      let (payload, id, marshals, decodes, new, added) = first in
      let entry : Str × StreamEntry = (id, stream_entry (event_for codec p r) payload) in
      let there = publish_report-pending r s first (omega arith) in
      let longer : length (pending (publish_report codec redis p r s)) ≡ length (pending s) + 1 =
        rw there (length-append (pending s) (entry ∷ [])) in
      let (entries, after, carried) =
        publish_all-pending rs (publish_report codec redis p r s) others (omega arith) in
      (
        entry ∷ entries,
        after ∙ ap (λ es. es ++ entries) there ∙ append_assoc (pending s) (entry ∷ []) entries,
        (decodes, carried),
      )
