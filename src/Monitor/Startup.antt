-- ===== src/Monitor/Startup.antt =====
-- Which clusters a started monitor has.
use lag_radar.Base.{
  ◌≡◌, refl, sym, ap, ◌∙◌, Bool, true, false, ◌&&◌, List, [], ◌∷◌, Option, none, some, Bool-cases,
  Option-cases, inl, inr, if◌then◌else◌,
}
use lag_radar.Base.Text.{Str, str_eq, str_eq_iff}
use lag_radar.Base.Clock.{Duration}
use lag_radar.Base.Map.{lookup, lookup-insert, or_else, or_else-none, or_else_assoc}
use lag_radar.Base.Result.{Result, ok, err, Result-cases}
use lag_radar.Cluster.{
  CollectorCluster, ConfigCluster, Manager, World, join_brokers, new_cluster, add_cluster,
  get_cluster,
}
use lag_radar.Base.Float.{Float64}
use lag_radar.Cluster.Helper.{Hooked, cluster_world}
use lag_radar.Cluster.Registry.{add_cluster_new}
use lag_radar.Monitor.{
  Environment, FileConfig, choose_file, collector_config, new_manager, add_configured, add_all,
  start,
}

abbrev is_ok : {E A : Type 0} → Result E A → Bool
is_ok (err e) = false
is_ok (ok a) = true

module _ {F H : Type 0} (world : World F H) where
  -- A cluster is enabled, and a client can be made for it.
  abbrev pub usable : ConfigCluster F → Bool
  usable config = config.enabled && is_ok (world.new_client (join_brokers config.brokers))

  abbrev if_usable : Str → Manager F H → ConfigCluster F → Option (CollectorCluster F H)
  if_usable n m config =
      if usable config && str_eq config.name n then some (new_cluster world m config) else none

  -- The first usable cluster of a name in a configuration.
  unfoldable pub first_usable :
      Str → Manager F H → List (ConfigCluster F) → Option (CollectorCluster F H)
  first_usable n m [] = none
  first_usable n m (config ∷ configs) = or_else (if_usable n m config) (first_usable n m configs)

  global_config-add_cluster :
      (config : ConfigCluster F) (m : Manager F H)
      → (add_cluster world config m).1.global_config ≡ m.global_config
  unfolding add_cluster
  global_config-add_cluster config m = elim (Bool-cases config.enabled) [
    | inr off ↦ rw off refl
    | inl on ↦ elim (Option-cases (lookup config.name m.clusters)) [
      | inr (cluster, there) ↦ rw (on, there) refl
      | inl absent ↦ elim (Result-cases (world.new_client (join_brokers config.brokers))) [
        | inl (client, made) ↦ rw (on, absent, made) refl
        | inr (e, failed) ↦ rw (on, absent, failed) refl
      ]
    ]
  ]

  get_cluster-add_cluster :
      (n : Str) (config : ConfigCluster F) (m : Manager F H)
      → get_cluster n (add_cluster world config m).1
        ≡ or_else (get_cluster n m) (if_usable n m config)
  unfolding add_cluster get_cluster
  get_cluster-add_cluster n config m = elim (Bool-cases config.enabled) [
    | inr off ↦ rw off (sym (or_else-none (lookup n m.clusters)))
    | inl on ↦ elim (Option-cases (lookup config.name m.clusters)) [
      | inr (cluster, there) ↦ elim (Bool-cases (str_eq config.name n)) [
        | inl this ↦
            let found : lookup n m.clusters ≡ some cluster =
              ap (λ j. lookup j m.clusters) (sym ((str_eq_iff config.name n).0 this)) ∙ there in
            rw (on, there, found) refl
        | inr that ↦
            let unusable : if_usable n m config ≡ none = elim (Bool-cases (usable config)) [
              | inl usual ↦ rw (usual, that) refl
              | inr unusual ↦ rw unusual refl
            ] in
            rw (unusable, on, there) (sym (or_else-none (lookup n m.clusters)))
      ]
      | inl absent ↦ elim (Result-cases (world.new_client (join_brokers config.brokers))) [
        | inl (client, made) ↦
            let inserted = lookup-insert config.name n (new_cluster world m config) m.clusters in
            let ready : usable config ≡ true = simp (on, made) in
            rw (add_cluster_new world config m on absent made, ready)
              (inserted ∙ elim (Bool-cases (str_eq config.name n)) [
                | inl this ↦
                    let gone : lookup n m.clusters ≡ none =
                      ap (λ j. lookup j m.clusters) (sym ((str_eq_iff config.name n).0 this))
                      ∙ absent in
                    rw (this, gone) refl
                | inr that ↦ rw that (sym (or_else-none (lookup n m.clusters)))
              ])
        | inr (e, failed) ↦ rw (on, absent, failed) (sym (or_else-none (lookup n m.clusters)))
      ]
    ]
  ]

  if_usable-global :
      (n : Str) (m k : Manager F H) (config : ConfigCluster F)
      → m.global_config ≡ k.global_config
      → if_usable n m config ≡ if_usable n k config
  unfolding new_cluster
  if_usable-global n m k config same = rw same refl

  first_usable-global :
      (n : Str) (m k : Manager F H) (configs : List (ConfigCluster F))
      → m.global_config ≡ k.global_config
      → first_usable n m configs ≡ first_usable n k configs
  unfolding first_usable
  first_usable-global n m k [] same = refl
  first_usable-global n m k (config ∷ configs) same =
      rw (if_usable-global n m k config same, first_usable-global n m k configs same) refl

  get_cluster-add_configured :
      (n : Str) (configs : List (ConfigCluster F)) (m : Manager F H)
      → get_cluster n (add_configured world configs m)
        ≡ or_else (get_cluster n m) (first_usable n m configs)
  unfolding add_configured first_usable
  get_cluster-add_configured n [] m = sym (or_else-none (get_cluster n m))
  get_cluster-add_configured n (config ∷ configs) m =
      let next = (add_cluster world config m).1 in
      get_cluster-add_configured n configs next
      ∙ rw
          (
            get_cluster-add_cluster n config m,
            first_usable-global n next m configs (global_config-add_cluster config m),
          )
          (sym (or_else_assoc (get_cluster n m) (if_usable n m config) (first_usable n m configs)))

module _ {F A C S : Type 0} ⦃f : Float64 F⦄ (env : Environment F A C S) where
  -- The manager with the settings of a configuration file, before clusters are added.
  abbrev pub fresh : FileConfig F → Duration → Duration → Manager F (Hooked S)
  fresh file check_interval inactivity_timeout =
      new_manager (collector_config file check_interval inactivity_timeout)

  -- Where a configuration file is found and read, its durations are valid, and it lists clusters, the
  -- monitor starts, whatever becomes of them; it then has under each name the first cluster of that name
  -- that is enabled and for which a client can be made, made with the settings of the file, and no other
  -- cluster.
  pub start-clusters :
      (n : Str) {path : Str} {file : FileConfig F} {config : ConfigCluster F}
      {configs : List (ConfigCluster F)} {check_interval inactivity_timeout : Duration}
      → choose_file env.config_file env.file_exists ≡ some path
      → env.load_config path ≡ ok file
      → env.parse_duration file.check_interval ≡ ok check_interval
      → env.parse_duration file.inactivity_timeout ≡ ok inactivity_timeout
      → file.clusters ≡ config ∷ configs
      → (m : Manager F (Hooked S)) × (start env ≡ ok m)
        × (get_cluster n m
            ≡ first_usable
                (cluster_world env.outside file.publisher)
                n
                (fresh file check_interval inactivity_timeout)
                (config ∷ configs))
  unfolding start
  start-clusters n {path} {file} {config} {configs} {check_interval} {inactivity_timeout} chosen
        loaded every timeout listed =
      let world = cluster_world env.outside file.publisher in
      let m = fresh file check_interval inactivity_timeout in
      (
        add_configured world (config ∷ configs) m,
        rw (chosen, loaded, every, timeout, listed) (unfold add_all in refl),
        get_cluster-add_configured world n (config ∷ configs) m
            ∙ (unfold new_manager get_cluster lookup in refl),
      )
