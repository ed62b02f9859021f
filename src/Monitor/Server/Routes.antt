-- ===== src/Monitor/Server/Routes.antt =====
-- Which handler answers the paths of groups.
use lag_radar.Base.{
  ◌≡◌, refl, sym, ap, ◌∙◌, ◌≢◌, inl, inr, Bool, true, false, ◌||◌, not, [], ◌∷◌, ◌++◌, Option, none,
  some, Bool-cases, Option-cases, if◌then◌else◌, arith,
}
use lag_radar.Base.Text.{Str, codes, str_eq, str_eq_iff, str_eq_refl}
use lag_radar.Base.Strings.{NoSlash, has_suffix, has_prefix, has_part, trim_prefix-append}
use lag_radar.Base.Map.{lookup, lookup-insert, some_injective}
use lag_radar.Base.Float.{Float64}
use lag_radar.Cluster.{
  CollectorCluster, Manager, get_cluster, get_status, get_cluster_group_statuses,
}
use lag_radar.Api.{clusters_prefix, invalid_path, groups_response, group_response, group_status}
use lag_radar.Api.Paths.{group_path, route-group_path}
use lag_radar.Monitor.Server.{
  Mux, Answer, IsPlainPattern, is_known, metrics_handler, below_clusters_handler,
  legacy_status_handler, api_routes, start_http_server, longest_below, handled, nothing_found,
  Found, find_handler, response, page_not_found, answer_of, answer_found, clean_path, serve,
}
use lag_radar.Monitor.System.{with_state}
use lag_radar.Monitor.Main.{Wakes, still, wakes}
use lag_radar.Monitor.Server.Start.{start_http_server_lem}

abbrev is_some : {A : Type 0} → Option A → Bool
is_some none = false
is_some (some x) = true

-- A path that does not end in a slash.
abbrev pub IsExact : Str → Type 0
IsExact path = has_suffix (codes "/") path ≡ false

has_suffix-slash : (s : Str) → has_suffix (codes "/") (s ++ codes "/") ≡ true
unfolding has_suffix str_eq
has_suffix-slash [] = refl
has_suffix-slash (c ∷ s) = ground (arith, has_suffix-slash s)

exact_differs : (p s : Str) → IsExact p → str_eq p (s ++ codes "/") ≡ false
exact_differs p s exact = elim (Bool-cases (str_eq p (s ++ codes "/"))) [
  | inr other ↦ other
  | inl same ↦ absurd (
      let ends : _ = rw (sym ((str_eq_iff p (s ++ codes "/")).0 same)) at (has_suffix-slash s) in
      ground arith)
]

module _ (A : Type 0) (p : Str) (exact : IsExact p) where
  abbrev routes : Option A → Mux
  routes default_cluster = (p, metrics_handler) ∷ api_routes default_cluster

  find_below_clusters :
      (default_cluster : Option A) (rest : Str)
      → str_eq p (clusters_prefix ++ rest) ≡ false
      → find_handler (routes default_cluster) (clusters_prefix ++ rest)
        ≡ handled below_clusters_handler
  unfolding find_handler api_routes lookup longest_below has_prefix has_suffix str_eq
  find_below_clusters default_cluster [] other = rw other refl
  find_below_clusters none (c ∷ rest) other =
      rw (other, exact_differs p (clusters_prefix ++ (c ∷ rest)) exact, exact) refl
  find_below_clusters (some cluster) (c ∷ rest) other =
      rw (other, exact_differs p (clusters_prefix ++ (c ∷ rest)) exact, exact) refl

  -- Without a cluster `default` no pattern stands for the paths below `/api/v1/status/`.
  find_no_legacy :
      (rest : Str)
      → str_eq p (codes "/api/v1/status/" ++ rest) ≡ false
      → find_handler (routes none) (codes "/api/v1/status/" ++ rest) ≡ nothing_found
  unfolding find_handler api_routes lookup longest_below has_prefix has_suffix str_eq
  find_no_legacy [] other = rw (other, exact_differs p (codes "/api/v1/status/") exact, exact) refl
  find_no_legacy (c ∷ rest) other =
      rw (other, exact_differs p (codes "/api/v1/status/" ++ (c ∷ rest)) exact, exact) refl

  find_legacy :
      (cluster : A) (rest : Str)
      → str_eq p (codes "/api/v1/status/" ++ rest) ≡ false
      → find_handler (routes (some cluster)) (codes "/api/v1/status/" ++ rest)
        ≡ handled legacy_status_handler
  unfolding find_handler api_routes lookup longest_below has_prefix has_suffix str_eq
  find_legacy cluster [] other = rw other refl
  find_legacy cluster (c ∷ rest) other =
      rw (other, exact_differs p (codes "/api/v1/status/" ++ (c ∷ rest)) exact, exact) refl

none_of : {A : Type 0} {o : Option A} → is_some o ≡ false → o ≡ none
none_of {o = none} h = refl
none_of {o = some x} h = absurd (ground arith)

some_of : {A : Type 0} {o : Option A} → is_some o ≡ true → (x : A) × (o ≡ some x)
some_of {o = none} h = absurd (ground arith)
some_of {o = some x} h = (x, refl)

-- The answer of the collector of a cluster, if there is one.
abbrev pub legacy_response : {F H : Type 0} → Str → Option (CollectorCluster F H) → Answer F
legacy_response group_id none = page_not_found
legacy_response group_id (some cluster) = response (group_status cluster.state group_id)

-- The cluster that a name has stays one while the loops of the collectors wake.
Wakes-is_some :
    {F H : Type 0} ⦃f : Float64 F⦄ {m last : Manager F H} (name : Str)
    → Wakes m last
    → is_some (get_cluster name last) ≡ is_some (get_cluster name m)
unfolding get_cluster with_state
Wakes-is_some name still = refl
Wakes-is_some name (wakes other w {next} {cluster} {c} before there ran) =
    elim (Bool-cases (str_eq other name)) [
      | inl same ↦
          let known : get_cluster name next ≡ some cluster =
            rw (sym ((str_eq_iff other name).0 same)) there in
          ap is_some (lookup-insert other name (record cluster { state = c }) next.clusters)
          ∙ rw same (sym (ap is_some known) ∙ Wakes-is_some name before)
      | inr apart ↦
          ap is_some (lookup-insert other name (record cluster { state = c }) next.clusters)
          ∙ rw apart (Wakes-is_some name before)
    ]

module _ {F H : Type 0} (metrics_path : Str) (plain_pattern : IsPlainPattern metrics_path)
    (rooted : has_prefix (codes "/") metrics_path ≡ true) (at_start : Manager F H) {mux : Mux}
    (started : start_http_server metrics_path at_start ≡ some mux) where
  registered :
      mux ≡ (metrics_path, metrics_handler) ∷ api_routes (get_cluster (codes "default") at_start)
  registered =
      let known = lookup metrics_path (api_routes (get_cluster (codes "default") at_start)) in
      let result = sym (start_http_server_lem metrics_path at_start plain_pattern) ∙ started in
      elim (Bool-cases (not (has_part (codes "/") metrics_path) || is_known known)) [
        | inl refused ↦ absurd (let no_mux : _ = rw refused at result in ground arith)
        | inr accepted ↦ sym (some_injective (rw accepted at result))
      ]

  not_metrics : (path : Str) → path ≢ metrics_path → str_eq metrics_path path ≡ false
  not_metrics path other = ground (arith, str_eq_iff metrics_path path)

  serve_clean :
      (m : Manager F H) (path : Str) {found : Found}
      → clean_path path ≡ path
      → find_handler mux path ≡ found
      → serve mux m path ≡ answer_found m path found
  unfolding serve
  serve_clean m path clean found = rw (clean, str_eq_refl path, found) refl

  -- Where the server has started, with a metrics path that has no host, wildcard, method or escape of a
  -- pattern and does not end in a slash: a request of the documented path of a group in a cluster whose
  -- name has no slash, with its slashes not escaped, if it is clean and not the metrics path, is answered with the status of the group as the manager then has it, or with the
  -- error of a group or a cluster that is not there, also where the group's name has slashes;
  -- except that it is refused as invalid where the path ends in `/status`, and else answered with
  -- the groups of the cluster where it ends in `/groups`.
  pub serve-group_path :
      (m : Manager F H) (name group_id : Str)
      → IsExact metrics_path
      → NoSlash name
      → let path = group_path name group_id in
        clean_path path ≡ path
        → path ≢ metrics_path
        → serve mux m path
          ≡ response (
              if has_suffix (codes "/status") path
              then invalid_path
              else if has_suffix (codes "/groups") path
              then groups_response (get_cluster_group_statuses name m)
              else group_response name group_id (get_status name group_id m))
  unfolding answer_of
  serve-group_path m name group_id exact plain clean other =
      let path = group_path name group_id in
      let found : find_handler mux path ≡ handled below_clusters_handler =
        ap (λ x. find_handler x path) registered
        ∙ find_below_clusters _ metrics_path exact (get_cluster (codes "default") at_start)
            (name ++ (codes "/groups/" ++ group_id)) (not_metrics path other) in
      serve_clean m path clean found ∙ (ap response (route-group_path m name group_id plain))

  -- Where the server has started, with a metrics path that has no host, wildcard, method or escape of a
  -- pattern and does not end in a slash, and the loops of the collectors have woken in any order since: a
  -- request of the legacy path of a group, with its slashes not escaped, if it is clean and not the
  -- metrics path, is answered with the status that the collector of the cluster `default` then has for the group; and if there is
  -- no such cluster, no page is found.
  pub serve-legacy_path :
      ⦃f : Float64 F⦄ {m : Manager F H} (group_id : Str)
      → Wakes at_start m
      → IsExact metrics_path
      → let path = codes "/api/v1/status/" ++ group_id in
        clean_path path ≡ path
        → path ≢ metrics_path
        → serve mux m path ≡ legacy_response group_id (get_cluster (codes "default") m)
  unfolding answer_of
  serve-legacy_path ⦃f⦄ {m} group_id woke exact clean other =
      let path = codes "/api/v1/status/" ++ group_id in
      let apart = not_metrics path other in
      let kept = Wakes-is_some (codes "default") woke in
      elim (Option-cases (get_cluster (codes "default") at_start)) [
        | inl none_there ↦
            let found : find_handler mux path ≡ nothing_found =
              ap (λ x. find_handler x path) registered
              ∙ rw none_there (find_no_legacy _ metrics_path exact group_id apart) in
            let none_now : get_cluster (codes "default") m ≡ none =
              none_of (kept ∙ ap is_some none_there) in
            serve_clean m path clean found ∙ rw none_now refl
        | inr (cluster, there) ↦
            let found : find_handler mux path ≡ handled legacy_status_handler =
              ap (λ x. find_handler x path) registered
              ∙ rw there (find_legacy _ metrics_path exact cluster group_id apart) in
            let (current, now) = some_of (kept ∙ ap is_some there) in
            serve_clean m path clean found
            ∙ rw now (
                ap (λ s. response (group_status current.state s))
                  (trim_prefix-append (codes "/api/v1/status/") group_id))
      ]
