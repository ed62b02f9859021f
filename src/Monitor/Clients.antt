-- ===== src/Monitor/Clients.antt =====
-- When a cluster is added, by what the Kafka library and Redis answer.
use lag_radar.Base.{
  ℕ, ◌≡◌, refl, ◌↔◌, ◌⊎◌, inl, inr, true, false, none, arith, IsSome, Bool-cases, Option-cases,
}
use lag_radar.Base.Int.{pos}
use lag_radar.Base.Text.{Str, codes}
use lag_radar.Base.Clock.{quot}
use lag_radar.Base.Float.{Float64}
use lag_radar.Base.Result.{ok, err, Result-cases}
use lag_radar.Rca.Events.{PublisherConfig}
use lag_radar.Kafka.{new_client, with_defaults, timeout_ms}
use lag_radar.Cluster.{ConfigCluster, Manager, join_brokers, new_cluster, add_cluster, get_cluster}
use lag_radar.Cluster.Helper.{
  Outside, Hooked, cluster_client, new_event_publisher, cluster_publisher, cluster_world,
}

module _ {F A C S : Type 0} ⦃f : Float64 F⦄ (outside : Outside F A C S) (rca : PublisherConfig)
    (config : ConfigCluster F) (m : Manager F (Hooked S)) where
  abbrev brokers : Str
  brokers = join_brokers config.brokers

  abbrev group : Str
  group = codes "lagradar_metrics_collector"

  -- The Kafka library makes both clients for the brokers of the cluster.
  abbrev pub BothMade : Type 0
  BothMade =
      (a : A) × (c : C) × (outside.library.new_admin brokers (pos 5_000) ≡ ok a)
      × (outside.library.new_consumer brokers group ≡ ok c)

  client_answer_lem :
      ((client : Str) × ((cluster_world outside rca).new_client brokers ≡ ok client) × BothMade)
      ⊎ ((e : ℕ) × ((cluster_world outside rca).new_client brokers ≡ err e) × ¬ BothMade)
  unfolding cluster_world cluster_client new_client with_defaults timeout_ms quot
  client_answer_lem = elim (Result-cases (outside.library.new_admin brokers (pos 5_000))) [
    | inr (e, no_admin) ↦ inr (e, rw no_admin refl, (λ (a, c, made, more). absurd (ground arith)))
    | inl (a, admin) ↦ elim (Result-cases (outside.library.new_consumer brokers group)) [
      | inr (e, no_consumer) ↦
          inr (e, rw (admin, no_consumer) refl, (λ (b, c, made, more). absurd (ground arith)))
      | inl (c, consumer) ↦ inl (brokers, rw (admin, consumer) refl, (a, c, admin, consumer))
    ]
  ]

  evaluation_hook-none_iff :
      ((new_cluster (cluster_world outside rca) m config).setup.evaluation_hook ≡ none)
      ↔ ((rca.enabled ≡ false) ⊎ IsSome outside.ping)
  unfolding new_cluster cluster_world cluster_publisher new_event_publisher
  evaluation_hook-none_iff = elim (Bool-cases rca.enabled) [
    | inr off ↦ rw off ((λ h. inl refl), (λ h. refl))
    | inl on ↦ elim (Option-cases outside.ping) [
      | inl fine ↦
          rw (on, fine)
            (
              (λ h. absurd (ground arith)),
              elim [ inl h ↦ absurd (ground arith) | inr h ↦ absurd (ground arith) ],
            )
      | inr (e, lost) ↦ rw (on, lost) ((λ h. inr (e, refl)), (λ h. refl))
    ]
  ]

  -- An enabled cluster that is new is added without an error exactly if the Kafka library makes an admin
  -- client and a consumer for its brokers, whatever Redis answers; and its collector has no hook exactly
  -- if RCA is disabled or Redis does not answer a ping.
  pub add_cluster-clients :
      config.enabled ≡ true
      → get_cluster config.name m ≡ none
      → let world = cluster_world outside rca in
        (((add_cluster world config m).0 ≡ none) ↔ BothMade)
        × (((new_cluster world m config).setup.evaluation_hook ≡ none)
            ↔ ((rca.enabled ≡ false) ⊎ IsSome outside.ping))
  unfolding add_cluster get_cluster
  add_cluster-clients on absent = (
    elim client_answer_lem [
      | inl (client, made, both) ↦ rw (on, absent, made) ((λ h. both), (λ h. refl))
      | inr (e, failed, not_both) ↦
          rw (on, absent, failed) ((λ h. absurd (ground arith)), (λ both. absurd (not_both both)))
    ],
    evaluation_hook-none_iff,
  )
