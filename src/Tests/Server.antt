-- ===== src/Tests/Server.antt =====
-- A server whose state is the values of its keys at each time.
use lag_radar.Base.{
  ℕ, ◌≡◌, refl, sym, ap, ◌∙◌, false, List, [], ◌∷◌, ◌++◌, map, Option, some, none, arith, inl, inr,
  Bool-cases, if◌then◌else◌,
}
use lag_radar.Base.Int.{◌+ℤ◌, ltb_ℤ}
use lag_radar.Base.Text.{Str, str_eq, str_eq_refl, str_eq_iff}
use lag_radar.Base.Clock.{Time, Duration}
use lag_radar.Base.Map.{Map, Distinct, lookup, insert, lookup-insert, or_else, or_else-none}
use lag_radar.Base.Result.{ok}
use lag_radar.Distributed.Types.{StateStoreConfig}
use lag_radar.Distributed.State.Interface.{
  Command, del, h_set, set, KeyValue, default_config, instance_key,
}
use lag_radar.Distributed.State.Heartbeat.{IsExpiring}
use lag_radar.Distributed.State.Kept.{IsSeparate}
use lag_radar.Distributed.State.Freshness.{IsTransactional}
use lag_radar.Tests.{local}

pub record Server : Type 0 where
  pub values : Str → Time → Option Str
  pub hashes : Str → Map Str

abbrev pub until : Time → Option Str → Time → Option Str
until end none t = none
until end (some v) t = if ltb_ℤ t end then some v else none

abbrev pub with_value : Str → Option Str → Time → Server → Server
with_value key v end s = record s {
  values = λ j t. if str_eq key j then until end v t else s.values j t;
}

abbrev pub is_there : Option Str → ℕ
is_there none = 0
is_there (some v) = 1

abbrev pub run_one : Time → Command → Server → Server
run_one now (del key) s = record s { hashes = λ j. if str_eq key j then [] else s.hashes j }
run_one now (h_set key field v) s = record s {
  hashes = λ j. if str_eq key j then insert field v (s.hashes j) else s.hashes j;
}
run_one now (set key v ttl) s = with_value key (some v) (now +ℤ ttl) s

unfoldable pub run_all : Time → List Command → Server → Server
run_all now [] s = s
run_all now (c ∷ commands) s = run_all now commands (run_one now c s)

-- A scan finds the one instance `local`.
abbrev pub server : KeyValue Server
server = record {
  set_key = λ now key v ttl s. (none, with_value key (some v) (now +ℤ ttl) s);
  exists = λ now key s. ok (is_there (s.values key now));
  expire = λ now key ttl s. (none, with_value key (s.values key now) (now +ℤ ttl) s);
  get = λ now key s. ok (s.values key now);
  scan = λ now cursor pattern s. ok (instance_key default_config local ∷ [], 0);
  get_each = λ now keys s. (none, map (λ k. s.values k now) keys);
  h_get_all = λ now key s. ok (s.hashes key);
  transact = λ now commands s. (none, run_all now commands s);
}

abbrev pub content : Server → Str → Time → Option Str
content s = s.values

str_eq_other : (j k : Str) → ¬ (j ≡ k) → str_eq j k ≡ false
str_eq_other j k apart = elim (Bool-cases (str_eq j k)) [
  | inl same ↦ absurd (apart ((str_eq_iff j k).0 same))
  | inr differs ↦ differs
]

pub server-IsExpiring : IsExpiring server content
server-IsExpiring = record {
  content-set = λ now later key v ttl s fine from before. rw (str_eq_refl key, before) refl;
  content-expire =
      λ now later key v ttl s fine there from before. rw (str_eq_refl key, there, before) refl;
  exists-content = λ now key v s there. not_none now key v s there;
  get_each-content = λ now keys s fine. refl;
}
  where
    not_none :
        (now : Time) (key v : Str) (s : Server)
        → s.values key now ≡ some v
        → ¬ (server.exists now key s ≡ ok 0)
    not_none now key v s there h = absurd (ground arith)

pub server-IsSeparate : IsSeparate server content
server-IsSeparate = record {
  get-content = λ now key s h. ground arith;
  content-set_other = λ now later key other v ttl s apart. rw (str_eq_other other key apart) refl;
}

-- The fields of a hash after a transaction, and the value of the key that it sets last.
hashes-run_all :
    (now : Time) (hash key stamp field : Str) (ttl : Duration) (entries : Map Str) (s : Server)
    → Distinct entries
    → lookup field (
        (run_all now (map (λ e. h_set hash e.0 e.1) entries ++ set key stamp ttl ∷ []) s).hashes
          hash)
      ≡ or_else (lookup field entries) (lookup field (s.hashes hash))
unfolding run_all lookup
hashes-run_all now hash key stamp field ttl [] s d = refl
hashes-run_all now hash key stamp field ttl ((f, v) ∷ entries) s d =
    hashes-run_all now hash key stamp field ttl entries (run_one now (h_set hash f v) s) d.1
    ∙ rw (str_eq_refl hash, lookup-insert f field v (s.hashes hash))
        (elim (Bool-cases (str_eq f field)) [
          | inl same ↦
              let gone : lookup field entries ≡ none =
                ap (λ j. lookup j entries) (sym ((str_eq_iff f field).0 same)) ∙ d.0 in
              rw (same, gone) refl
          | inr other ↦ rw other refl
        ])

values-run_all :
    (now later : Time) (hash key stamp : Str) (ttl : Duration) (entries : Map Str) (s : Server)
    → (run_all now (map (λ e. h_set hash e.0 e.1) entries ++ set key stamp ttl ∷ []) s).values key
        later
      ≡ (if ltb_ℤ later (now +ℤ ttl) then some stamp else none)
unfolding run_all
values-run_all now later hash key stamp ttl [] s = rw (str_eq_refl key) refl
values-run_all now later hash key stamp ttl ((f, v) ∷ entries) s =
    values-run_all now later hash key stamp ttl entries (run_one now (h_set hash f v) s)

pub server-IsTransactional : IsTransactional server
unfolding run_all lookup
server-IsTransactional = record {
  hash_of_transaction = λ now later hash key stamp ttl entries s m field distinct fine read.
      let same : (run_all now (map (λ e. h_set hash e.0 e.1) entries ++ set key stamp ttl ∷ [])
              (run_one now (del hash) s)).hashes
            hash
          ≡ m =
        ground arith in
      ap (lookup field) (sym same)
      ∙ hashes-run_all now hash key stamp field ttl entries (run_one now (del hash) s) distinct
      ∙ rw (str_eq_refl hash) (or_else-none (lookup field entries));
  key_of_transaction = λ now later hash key stamp ttl entries s v timed fine read.
      let same : v
          ≡ (run_all now (map (λ e. h_set hash e.0 e.1) entries ++ set key stamp ttl ∷ [])
                (run_one now (del hash) s)).values
              key later =
        ground arith in
      same ∙ values-run_all now later hash key stamp ttl entries (run_one now (del hash) s);
}

abbrev pub config : StateStoreConfig
config = default_config

abbrev pub blank : Server
blank = record { values = λ key t. none; hashes = λ key. [] }
