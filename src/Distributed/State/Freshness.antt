-- ===== src/Distributed/State/Freshness.antt =====
-- Assignments that are stored and read again: when they come back, and when they count as expired.
use lag_radar.Base.{
  ℕ, ◌/◌, ◌^◌, ◌<◌, ◌≤◌, ◌≡◌, refl, sym, ap, ◌∙◌, ◌⊎◌, inl, inr, true, false, List, [], ◌∷◌, ◌++◌,
  map, Option, none, some, arith, Bool-cases, if◌then◌else◌, All, ◌&&◌,
}
use lag_radar.Base.Int.{pos, ◌+ℤ◌, ◌*ℤ◌, ltb_ℤ}
use lag_radar.Base.Word.{add_i64}
use lag_radar.Base.Text.{Str, itoa, parse_int-itoa}
use lag_radar.Base.Clock.{Time, Duration, second, sub_time, unix}
use lag_radar.Base.Map.{Map, lookup, Distinct}
use lag_radar.Base.Result.{ok, err}
use lag_radar.Distributed.Types.{StateStoreConfig}
use lag_radar.Distributed.State.Interface.{
  del, h_set, set, KeyValue, Json, assignments_expired, assignments_key, assignments_timestamp_key,
}
use lag_radar.Distributed.State.Encoded.{
  Survives, Stands, marshal_assignments_lem, lookup-unmarshal_assignments,
}
use lag_radar.Distributed.State.Assignments.{
  expired_at, after_transaction, assignment_commands, store_assignments, unmarshal_assignments,
  get_assignments,
}

-- What the assignments rely on of Redis, after a transaction that writes a hash anew and sets a key.
pub record IsTransactional {S : Type 0} (redis : KeyValue S) : Type 0 where
  -- The hash has the fields that were set, each once, and no other.
  pub hash_of_transaction :
      (now later : Time) (hash key stamp : Str) (ttl : Duration) (entries : Map Str) (s : S)
      (m : Map Str) (field : Str)
      → let r =
          redis.transact now
            (del hash ∷ (map (λ e. h_set hash e.0 e.1) entries ++ set key stamp ttl ∷ []))
            s in
        Distinct entries
        → r.0 ≡ none
        → redis.h_get_all later hash r.1 ≡ ok m
        → lookup field m ≡ lookup field entries
  -- The key has its value until its time is over, and then is gone, where it has been given a time.
  pub key_of_transaction :
      (now later : Time) (hash key stamp : Str) (ttl : Duration) (entries : Map Str) (s : S)
      (v : Option Str)
      → let r =
          redis.transact now
            (del hash ∷ (map (λ e. h_set hash e.0 e.1) entries ++ set key stamp ttl ∷ []))
            s in
        ltb_ℤ (pos 0) ttl ≡ true
        → r.0 ≡ none
        → redis.get later key r.1 ≡ ok v
        → v ≡ (if ltb_ℤ later (now +ℤ ttl) then some stamp else none)

module _ {S : Type 0} (redis : KeyValue S) (json : Json) (config : StateStoreConfig) where
  -- The timestamp that is stored at a time counts as expired where it is older than the timeout.
  expired_at-stamp :
      (n : ℕ) (now : Time) (timeout : Duration)
      → n < 2 ^ 63
      → expired_at now timeout (ok (some (itoa (unix (pos n))))) ≡ (
          if ltb_ℤ (pos 0) (unix (pos n))
            && ltb_ℤ timeout (sub_time now (unix (pos n) *ℤ pos second))
          then some (unix (pos n) *ℤ pos second)
          else none)
  unfolding unix
  expired_at-stamp n now timeout fits = rw (parse_int-itoa (n / second) (omega arith))

  expired_at-young :
      (n : ℕ) (now : Time) (timeout : Duration)
      → n < 2 ^ 63
      → ltb_ℤ timeout (sub_time now (unix (pos n) *ℤ pos second)) ≡ false
      → expired_at now timeout (ok (some (itoa (unix (pos n))))) ≡ none
  expired_at-young n now timeout fits young =
      expired_at-stamp n now timeout fits ∙ elim (Bool-cases (ltb_ℤ (pos 0) (unix (pos n)))) [
        | inl after ↦ rw (after, young) refl
        | inr before ↦ rw before refl
      ]

  expired_at-old :
      (n : ℕ) (now : Time) (timeout : Duration)
      → n < 2 ^ 63
      → second ≤ n
      → ltb_ℤ timeout (sub_time now (unix (pos n) *ℤ pos second)) ≡ true
      → expired_at now timeout (ok (some (itoa (unix (pos n))))) ≡ some (unix (pos n) *ℤ pos second)
  expired_at-old n now timeout fits recent old =
      let after : ltb_ℤ (pos 0) (unix (pos n)) ≡ true = unfold unix in ground arith in
      expired_at-stamp n now timeout fits ∙ rw (after, old) refl

module _ {S : Type 0} (redis : KeyValue S) (laws : IsTransactional redis) (json : Json)
    (config : StateStoreConfig)
    (timed : ltb_ℤ (pos 0) (add_i64 config.assignment_timeout config.assignment_timeout) ≡ true)
    (n : ℕ) (assignments : Map (List Str)) (s : S) where
  -- The server after the assignments are stored at the time `pos n`.
  abbrev pub stored : S
  stored = (store_assignments redis json config (pos n) assignments s).1

  -- The time that the timestamp stands for.
  abbrev pub stamped : Time
  stamped = unix (pos n) *ℤ pos second

  -- Twice the timeout, as an `int64`.
  abbrev pub key_ttl : Duration
  key_ttl = add_i64 config.assignment_timeout config.assignment_timeout

  after_transaction-none :
      (r : Option ℕ × S)
      → let done = after_transaction redis json config r in
        done.0 ≡ none → (r.0 ≡ none) × (r.1 ≡ done.1)
  after_transaction-none (none, t) h = (refl, refl)
  after_transaction-none (some e, t) h = absurd (ground arith)

  store_assignments_lem :
      Distinct assignments
      → All (λ e. Survives redis json config e.1) assignments
      → (store_assignments redis json config (pos n) assignments s).0 ≡ none
      → (entries : Map Str) × Distinct entries
        × ((i : Str) → Stands redis json config (lookup i assignments) (lookup i entries))
        × (let r =
              redis.transact (pos n) (assignment_commands redis json config (pos n) entries) s in
            (r.0 ≡ none) × (r.1 ≡ stored))
  unfolding store_assignments
  store_assignments_lem d h done =
      let (entries, marshalled, distinct, stands) =
        marshal_assignments_lem redis json config assignments d h in
      let ran = redis.transact (pos n) (assignment_commands redis json config (pos n) entries) s in
      let same : store_assignments redis json config (pos n) assignments s
          ≡ after_transaction redis json config ran =
        rw marshalled in
      let (fine, out) = after_transaction-none ran (sym (ap (λ r. r.0) same) ∙ done) in
      (entries, distinct, stands, (fine, out ∙ sym (ap (λ r. r.1) same)))

  -- What a later read of the timestamp finds.
  read_stamp :
      (later : Time) (v : Option Str)
      → Distinct assignments
      → All (λ e. Survives redis json config e.1) assignments
      → (store_assignments redis json config (pos n) assignments s).0 ≡ none
      → redis.get later (assignments_timestamp_key config) stored ≡ ok v
      → v ≡ (if ltb_ℤ later (pos n +ℤ key_ttl) then some (itoa (unix (pos n))) else none)
  unfolding assignment_commands
  read_stamp later v d h done stamp =
      let (entries, distinct, stands, (fine, out)) = store_assignments_lem d h done in
      laws.key_of_transaction (pos n) later (assignments_key config)
        (assignments_timestamp_key config) (itoa (unix (pos n))) key_ttl entries s v timed fine
        (ap (redis.get later (assignments_timestamp_key config)) out ∙ stamp)

  -- What a later read of the hash finds.
  read_fields :
      (later : Time) (m : Map Str) (instance : Str)
      → Distinct assignments
      → All (λ e. Survives redis json config e.1) assignments
      → (store_assignments redis json config (pos n) assignments s).0 ≡ none
      → redis.h_get_all later (assignments_key config) stored ≡ ok m
      → lookup instance (unmarshal_assignments redis json config m) ≡ lookup instance assignments
  unfolding assignment_commands
  read_fields later m instance d h done fields =
      let (entries, distinct, stands, (fine, out)) = store_assignments_lem d h done in
      let read =
        laws.hash_of_transaction (pos n) later (assignments_key config)
          (assignments_timestamp_key config) (itoa (unix (pos n))) key_ttl entries s m instance
          distinct fine (ap (redis.h_get_all later (assignments_key config)) out ∙ fields) in
      lookup-unmarshal_assignments redis json config (lookup instance assignments) instance m
        (rw read (stands instance))

  stored_assignments_return :
      (later : Time) (instance : Str) {v : Option Str} {m : Map Str}
      → n < 2 ^ 63
      → Distinct assignments
      → All (λ e. Survives redis json config e.1) assignments
      → (store_assignments redis json config (pos n) assignments s).0 ≡ none
      → redis.get later (assignments_timestamp_key config) stored ≡ ok v
      → redis.h_get_all later (assignments_key config) stored ≡ ok m
      → (ltb_ℤ config.assignment_timeout (sub_time later stamped) ≡ false)
        ⊎ (ltb_ℤ later (pos n +ℤ key_ttl) ≡ false)
      → (found : Map (List Str)) × (get_assignments redis json config later stored ≡ ok found)
        × (lookup instance found ≡ lookup instance assignments)
  unfolding get_assignments assignment_commands
  stored_assignments_return later instance {v} {m} fits d h done stamp fields age =
      let read = read_stamp later v d h done stamp in
      let current : expired_at later config.assignment_timeout (ok v) ≡ none =
        rw read (not_expired age) in
      (
        unmarshal_assignments redis json config m,
        rw (stamp, fields, current) refl,
        read_fields later m instance d h done fields,
      )
    where
      not_expired :
          (ltb_ℤ config.assignment_timeout (sub_time later stamped) ≡ false)
            ⊎ (ltb_ℤ later (pos n +ℤ key_ttl) ≡ false)
          → expired_at later config.assignment_timeout
              (ok (if ltb_ℤ later (pos n +ℤ key_ttl) then some (itoa (unix (pos n))) else none))
            ≡ none
      not_expired (inl young) = elim (Bool-cases (ltb_ℤ later (pos n +ℤ key_ttl))) [
        | inl alive ↦
            rw alive
              (expired_at-young redis json config n later config.assignment_timeout fits young)
        | inr gone ↦ rw gone refl
      ]
      not_expired (inr gone) = rw gone refl

  stored_assignments_expire :
      (later : Time) {v : Option Str}
      → n < 2 ^ 63
      → second ≤ n
      → Distinct assignments
      → All (λ e. Survives redis json config e.1) assignments
      → (store_assignments redis json config (pos n) assignments s).0 ≡ none
      → redis.get later (assignments_timestamp_key config) stored ≡ ok v
      → ltb_ℤ config.assignment_timeout (sub_time later stamped) ≡ true
      → ltb_ℤ later (pos n +ℤ key_ttl) ≡ true
      → get_assignments redis json config later stored ≡ err (assignments_expired stamped)
  unfolding get_assignments assignment_commands
  stored_assignments_expire later {v} fits recent d h done stamp old alive =
      let read = read_stamp later v d h done stamp in
      let current : expired_at later config.assignment_timeout (ok v) ≡ some stamped =
        rw (read, alive)
          (expired_at-old redis json config n later config.assignment_timeout fits recent old) in
      rw (stamp, current) refl

  -- Twice the assignment timeout, as an int64, is more than 0, so that the timestamp is given a time to
  -- live. Assignments are stored without an error at a time after the first second of 1970 and before the year
  -- 2262, and Redis answers the reads. A later read returns an error that they are expired, if their
  -- timestamp is older than the timeout and twice the timeout has not passed; and else exactly the
  -- assignments that were stored, also when twice the timeout has passed.
  pub store_get_assignments :
      (later : Time) (instance : Str) {v : Option Str} {m : Map Str}
      → n < 2 ^ 63
      → second ≤ n
      → Distinct assignments
      → All (λ e. Survives redis json config e.1) assignments
      → (store_assignments redis json config (pos n) assignments s).0 ≡ none
      → redis.get later (assignments_timestamp_key config) stored ≡ ok v
      → redis.h_get_all later (assignments_key config) stored ≡ ok m
      → (found : Map (List Str)) × (get_assignments redis json config later stored ≡ (
          if ltb_ℤ later (pos n +ℤ key_ttl)
            && ltb_ℤ config.assignment_timeout (sub_time later stamped)
          then err (assignments_expired stamped)
          else ok found))
        × (lookup instance found ≡ lookup instance assignments)
  store_get_assignments later instance fits recent d h done stamp fields =
      let returned = stored_assignments_return later instance fits d h done stamp fields in
      elim (Bool-cases (ltb_ℤ later (pos n +ℤ key_ttl))) [
        | inr gone ↦ rw gone (returned (inr gone))
        | inl alive ↦ elim (Bool-cases (ltb_ℤ config.assignment_timeout (sub_time later stamped))) [
          | inr young ↦ rw (alive, young) (returned (inl young))
          | inl old ↦ (
            assignments,
            rw (alive, old) (stored_assignments_expire later fits recent d h done stamp old alive),
            refl,
          )
        ]
      ]
