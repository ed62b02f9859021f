-- ===== src/Monitor/Server.antt =====
-- cmd/monitor/main.go: `startHTTPServer`, with what it uses of `http.ServeMux`, for patterns with no
-- methods, wildcards or escapes (IsPlainPattern), and paths that start with a
-- slash and are sent with no slash of theirs escaped.
pub mod Start
pub mod Routes
use lag_radar.Base.{
  ◌≡◌, ℕ, Bool, not, ◌||◌, ◌&&◌, List, [], ◌∷◌, ◌++◌, Option, none, some, length, ltb, reverse,
  if◌then◌else◌,
}
use lag_radar.Base.Text.{Str, codes, str_eq}
use lag_radar.Base.Strings.{
  has_prefix, has_suffix, has_part, trim_prefix, split_slashes, join_slashes,
}
use lag_radar.Base.Map.{Map, lookup}
use lag_radar.Collector.State.{Collector}
use lag_radar.Cluster.{CollectorCluster, Manager, get_cluster}
use lag_radar.Api.{
  Response, cluster_ready, get_all_groups_across_clusters, get_all_groups_list, list_clusters,
  route_clusters, group_status,
}

-- What is registered.
pub data Handler : Type 0 where
  metrics_handler health_handler ready_handler : Handler
  all_status_handler groups_handler config_handler : Handler
  clusters_handler below_clusters_handler legacy_status_handler : Handler

-- A pattern that `http.ServeMux` takes as it is: with no wildcard, no method before a space or a tab, and
-- no escape.
abbrev pub IsPlainPattern : Str → Type 0
IsPlainPattern pattern =
    (has_part (codes "{") pattern ≡ Bool.false)
    × (has_part (codes "}") pattern ≡ Bool.false)
    × (has_part (codes " ") pattern ≡ Bool.false)
    × (has_part (9 ∷ []) pattern ≡ Bool.false)
    × (has_part (codes "%") pattern ≡ Bool.false)

abbrev pub Mux : Type 0
Mux = Map Handler

abbrev is_known : Option Handler → Bool
is_known none = Bool.false
is_known (some h) = Bool.true

-- `mux.Handle`; `none` is a panic, of a pattern with no slash or of one that is there already.
unfoldable pub register : Str × Handler → Mux → Option Mux
register (pattern, h) mux =
    if not (has_part (codes "/") pattern) || is_known (lookup pattern mux)
    then none
    else some (mux ++ (pattern, h) ∷ [])

abbrev pub and_then : Option Mux → (Mux → Option Mux) → Option Mux
and_then none next = none
and_then (some mux) next = next mux

unfoldable pub register_all : List (Str × Handler) → Mux → Option Mux
register_all [] mux = some mux
register_all (entry ∷ entries) mux = and_then (register entry mux) (register_all entries)

abbrev legacy_routes : {A : Type 0} → Option A → List (Str × Handler)
legacy_routes none = []
legacy_routes (some cluster) = (codes "/api/v1/status/", legacy_status_handler) ∷ []

-- What is registered after the metrics, in its order.
unfoldable pub api_routes : {A : Type 0} → Option A → List (Str × Handler)
api_routes default_cluster =
    (codes "/health", health_handler)
    ∷ (codes "/ready", ready_handler)
    ∷ (codes "/api/v1/status", all_status_handler)
    ∷ (codes "/api/v1/groups", groups_handler)
    ∷ (codes "/api/v1/config", config_handler)
    ∷ (codes "/api/v1/clusters", clusters_handler)
    ∷ (codes "/api/v1/clusters/", below_clusters_handler)
    ∷ legacy_routes default_cluster

module _ {F H : Type 0} where
  -- The routes of `startHTTPServer` for a metrics path and the manager at the start.
  unfoldable pub start_http_server : Str → Manager F H → Option Mux
  start_http_server metrics_path m =
      register_all ((metrics_path, metrics_handler) ∷ api_routes (get_cluster (codes "default") m))
        []

-- What `http.ServeMux` finds for a path.
pub data Found : Type 0 where
  handled : Handler → Found
  redirected : Str → Found
  nothing_found : Found

abbrev pub longer_of : Option (Str × Handler) → Option (Str × Handler) → Option (Str × Handler)
longer_of none other = other
longer_of (some a) none = some a
longer_of (some a) (some b) = if ltb (length b.0) (length a.0) then some a else some b

-- A pattern that ends in a slash stands for the paths below it.
abbrev pub if_below : Str → Str × Handler → Option (Str × Handler)
if_below path (pattern, h) =
    if has_suffix (codes "/") pattern && has_prefix pattern path then some (pattern, h) else none

-- The longest of the patterns that end in a slash and start a path.
unfoldable pub longest_below : Mux → Str → Option (Str × Handler)
longest_below [] path = none
longest_below (entry ∷ mux) path = longer_of (if_below path entry) (longest_below mux path)

abbrev below : Option (Str × Handler) → Found
below none = nothing_found
below (some entry) = handled entry.1

abbrev slash_added : Mux → Str → Option Handler → Found
slash_added mux path none = below (longest_below mux path)
slash_added mux path (some h) = redirected (path ++ codes "/")

abbrev exact : Mux → Str → Option Handler → Found
exact mux path (some h) = handled h
exact mux path none = slash_added mux path (lookup (path ++ codes "/") mux)

-- The pattern that is the path, or a redirection where the path lacks its last slash, or the longest
-- pattern for the paths below it.
unfoldable pub find_handler : Mux → Str → Found
find_handler mux path = exact mux path (lookup path mux)

abbrev parent : List Str → List Str
parent [] = []
parent (part ∷ parts) = parts

-- The parts of a path from the last to the first, without empty parts, `.`, and `..` with its parent.
unfoldable pub clean_parts : List Str → List Str → List Str
clean_parts done [] = done
clean_parts done (part ∷ parts) =
    if str_eq part [] || str_eq part (codes ".")
    then clean_parts done parts
    else if str_eq part (codes "..")
    then clean_parts (parent done) parts
    else clean_parts (part ∷ done) parts

-- The clean path that `http.ServeMux` redirects to, for a path that starts with a slash.
unfoldable pub clean_path : Str → Str
unfolding clean_parts
clean_path path =
    let cleaned = codes "/" ++ join_slashes (reverse (clean_parts [] (split_slashes path))) in
    if has_suffix (codes "/") path && not (str_eq cleaned (codes "/"))
    then cleaned ++ codes "/"
    else cleaned

-- The answers, with those of a collector whose cluster has been removed, which nothing in `main` does, and
-- those that show the metrics, the runtime and the configuration as names.
pub data Answer (F : Type 0) : Type 0 where
  response : Response F → Answer F
  metrics_page healthy config_shown page_not_found : Answer F
  redirect_to : Str → Answer F
  of_removed_collector : Str → Answer F

module _ {F H : Type 0} where
  -- The legacy handler asks the collector that the cluster `default` had at the start, which it still has.
  legacy_answer : Option (CollectorCluster F H) → Str → Answer F
  legacy_answer none path = of_removed_collector path
  legacy_answer (some cluster) path =
      response (group_status cluster.state (trim_prefix (codes "/api/v1/status/") path))

  -- The answer of a handler, with the manager as it is.
  unfoldable pub answer_of : Manager F H → Str → Handler → Answer F
  unfolding legacy_answer
  answer_of m path metrics_handler = metrics_page
  answer_of m path health_handler = healthy
  answer_of m path ready_handler = response (cluster_ready m)
  answer_of m path all_status_handler = response (get_all_groups_across_clusters m)
  answer_of m path groups_handler = response (get_all_groups_list m)
  answer_of m path config_handler = config_shown
  answer_of m path clusters_handler = response (list_clusters m)
  answer_of m path below_clusters_handler = response (route_clusters m path)
  answer_of m path legacy_status_handler = legacy_answer (get_cluster (codes "default") m) path

  abbrev pub answer_found : Manager F H → Str → Found → Answer F
  answer_found m path (handled h) = answer_of m path h
  answer_found m path (redirected other) = redirect_to other
  answer_found m path nothing_found = page_not_found

  unfoldable pub serve : Mux → Manager F H → Str → Answer F
  serve mux m path =
      if str_eq (clean_path path) path
      then answer_found m path (find_handler mux path)
      else redirect_to (clean_path path)
