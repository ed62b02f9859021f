-- ===== src/Kafka/Handles.antt =====
-- The handles that a client opens and closes.
use lag_radar.Base.{◌≡◌, refl, ◌⊎◌, List, [], ◌∷◌, ◌++◌, inl, inr}
use lag_radar.Base.Result.{Result, ok, err, Result-cases}
use lag_radar.Kafka.{
  ClientConfig, Library, Handling, admin_made, consumer_made, admin_closed, consumer_closed,
  NewError, Client, new_client, close, with_defaults, timeout_ms,
}

module _ {A C : Type 0} where
  -- The handles that were made, and those that were closed, in order.
  unfoldable pub made : List (Handling A C) → List (A ⊎ C)
  made [] = []
  made (admin_made a ∷ log) = inl a ∷ made log
  made (consumer_made c ∷ log) = inr c ∷ made log
  made (_ ∷ log) = made log

  unfoldable pub closed : List (Handling A C) → List (A ⊎ C)
  closed [] = []
  closed (admin_closed a ∷ log) = inl a ∷ closed log
  closed (consumer_closed c ∷ log) = inr c ∷ closed log
  closed (_ ∷ log) = closed log

  -- What the owner of a new client does at the end: it closes it, if there is one.
  abbrev pub closing : Result NewError (Client A C) → List (Handling A C)
  closing (err e) = []
  closing (ok client) = close client

  -- Whatever the Kafka library answers, the handles that the constructor of a client makes are the ones
  -- that are closed, each once, when it fails, or else when the client is closed in the end.
  pub new_client-closed :
      (library : Library A C) (config : ClientConfig)
      → let (answer, log) = new_client library config in
        made (log ++ closing answer) ≡ closed (log ++ closing answer)
  unfolding new_client close made closed
  new_client-closed library config =
      let full = with_defaults config in
      elim (Result-cases (library.new_admin full.brokers (timeout_ms full))) [
        | inr (e, no_admin) ↦ rw (new_client, no_admin) refl
        | inl (a, admin) ↦
            elim (Result-cases (library.new_consumer full.brokers full.consumer_group)) [
              | inr (e, no_consumer) ↦ rw (new_client, admin, no_consumer) refl
              | inl (c, consumer) ↦ rw (new_client, admin, consumer) refl
            ]
      ]
