-- ===== src/Monitor/Server/Start.antt =====
-- When the registration of the routes panics.
use lag_radar.Base.{
  ◌≡◌, refl, sym, ap, ◌∙◌, if◌then◌else◌, inl, inr, true, false, not, ◌||◌, List, [], ◌∷◌, ◌++◌,
  Option, none, some, All, Bool-cases, append-nil, append_assoc, arith,
}
use lag_radar.Base.Text.{Str, codes, str_eq, str_eq_iff, str_eq_refl}
use lag_radar.Base.Strings.{has_part, has_prefix}
use lag_radar.Base.Map.{Map, Distinct, lookup}
use lag_radar.Cluster.{Manager, get_cluster}
use lag_radar.Monitor.Server.{
  Handler, metrics_handler, IsPlainPattern, Mux, is_known, register, register_all, api_routes,
  start_http_server,
}

lookup-append :
    {V : Type 0} (k : Str) (m n : Map V) → lookup k m ≡ none → lookup k (m ++ n) ≡ lookup k n
unfolding lookup
lookup-append k [] n absent = refl
lookup-append k ((j, v) ∷ m) n absent = ground (arith, lookup-append k m n)

-- None of the entries is in the map.
abbrev Apart : List (Str × Handler) → Mux → Type 0
Apart entries mux = All (λ e. lookup e.0 mux ≡ none) entries

abbrev HaveSlash : List (Str × Handler) → Type 0
HaveSlash entries = All (λ e. has_part (codes "/") e.0 ≡ true) entries

add-Apart :
    (q : Str) (g : Handler) (entries : List (Str × Handler)) (mux : Mux)
    → lookup q entries ≡ none
    → Apart entries mux
    → Apart entries (mux ++ (q, g) ∷ [])
unfolding lookup
add-Apart q g [] mux absent apart = tt
add-Apart q g ((r, h) ∷ entries) mux absent (here, others) = elim (Bool-cases (str_eq q r)) [
  | inl same ↦ absurd (
      let known : some h ≡ none = rw (sym ((str_eq_iff q r).0 same), str_eq_refl q) at absent in
      ground arith)
  | inr other ↦
      let left : lookup q entries ≡ none = ground (arith, str_eq_iff q r, str_eq_iff r q) in
      (
        lookup-append r mux ((q, g) ∷ []) here ∙ rw other refl,
        add-Apart q g entries mux left others,
      )
]

register_all-first :
    (entries : List (Str × Handler)) (p : Str) (h : Handler) (mux : Mux)
    → HaveSlash entries
    → Distinct entries
    → Apart entries mux
    → register_all entries ((p, h) ∷ mux)
      ≡ (if is_known (lookup p entries) then none else some ((p, h) ∷ (mux ++ entries)))
unfolding register_all register lookup
register_all-first [] p h mux slashes distinct apart =
    ap (λ m. some ((p, h) ∷ m)) (sym (append-nil mux))
register_all-first ((q, g) ∷ entries) p h mux (slash_here, slashes) (new, distinct) (here, apart) =
    elim (Bool-cases (str_eq p q)) [
      | inl same ↦
          let back : str_eq q p ≡ true = ground (arith, str_eq_iff p q, str_eq_iff q p) in
          rw (slash_here, same, back) refl
      | inr other ↦
          let back : str_eq q p ≡ false = ground (arith, str_eq_iff p q, str_eq_iff q p) in
          rw (slash_here, other, back, here)
            (register_all-first entries p h (mux ++ (q, g) ∷ []) slashes distinct
                (add-Apart q g entries mux new apart)
              ∙ rw (append_assoc mux ((q, g) ∷ []) entries) refl)
    ]

api_routes-Distinct :
    {A : Type 0} (default_cluster : Option A) → Distinct (api_routes default_cluster)
unfolding api_routes lookup str_eq
api_routes-Distinct none = (refl, (refl, (refl, (refl, (refl, (refl, (refl, tt)))))))
api_routes-Distinct (some c) = (refl, (refl, (refl, (refl, (refl, (refl, (refl, (refl, tt))))))))

api_routes-HaveSlash :
    {A : Type 0} (default_cluster : Option A) → HaveSlash (api_routes default_cluster)
unfolding api_routes has_part has_prefix
api_routes-HaveSlash none = (refl, (refl, (refl, (refl, (refl, (refl, (refl, tt)))))))
api_routes-HaveSlash (some c) = (refl, (refl, (refl, (refl, (refl, (refl, (refl, (refl, tt))))))))

empty-Apart : (entries : List (Str × Handler)) → Apart entries []
unfolding lookup
empty-Apart [] = tt
empty-Apart (e ∷ entries) = (refl, empty-Apart entries)

-- For a metrics path with no wildcard, method or escape of a pattern: the start of the server panics
-- exactly if the metrics path has no slash, so also if it is left out of the configuration, or is
-- one of the other patterns; and else it has registered all of them, the one of
-- the legacy status exactly if there is a cluster `default` at that time.
pub start_http_server_lem :
    {F H : Type 0} (metrics_path : Str) (m : Manager F H)
    → IsPlainPattern metrics_path
    → let routes = api_routes (get_cluster (codes "default") m) in
      start_http_server metrics_path m ≡ (
        if not (has_part (codes "/") metrics_path) || is_known (lookup metrics_path routes)
        then none
        else some ((metrics_path, metrics_handler) ∷ routes))
unfolding start_http_server register_all register lookup
start_http_server_lem metrics_path m plain =
    let default_cluster = get_cluster (codes "default") m in
    let others =
      register_all-first (api_routes default_cluster) metrics_path metrics_handler []
        (api_routes-HaveSlash default_cluster) (api_routes-Distinct default_cluster)
        (empty-Apart (api_routes default_cluster)) in
    elim (Bool-cases (has_part (codes "/") metrics_path)) [
      | inl has_slash ↦ rw has_slash others
      | inr no_slash ↦ rw no_slash refl
    ]
