-- ===== src/Base/Map.antt =====
-- A Go map with texts for keys: an association list with each key once.
use lag_radar.Base.{
  ◌≡◌, refl, sym, ap, ◌∙◌, Bool, false, List, [], ◌∷◌, map, Option, none, some, arith, All,
  Bool-cases, inl, inr, if◌then◌else◌,
}
use lag_radar.Base.Text.{Str, str_eq, str_eq_iff}

abbrev pub Map {ℓ} : Type ℓ → Type ℓ
Map V = List (Str × V)

pub some_injective {ℓ} : {A : Type ℓ} {x y : A} → some x ≡ some y → x ≡ y
some_injective h = ground arith

module _ {ℓ} {V : Type ℓ} where
  abbrev pub keys : Map V → List Str
  keys = map (λ e. e.0)

  unfoldable pub lookup : Str → Map V → Option V
  lookup k [] = none
  lookup k ((j, v) ∷ m) = if str_eq j k then some v else lookup k m

  unfoldable pub insert : Str → V → Map V → Map V
  insert k v [] = (k, v) ∷ []
  insert k v ((j, w) ∷ m) = if str_eq j k then (k, v) ∷ m else (j, w) ∷ insert k v m

  -- `for k := range m { if !keep(k) { delete(m, k) } }`
  unfoldable pub retain : (Str → Bool) → Map V → Map V
  retain keep [] = []
  retain keep ((j, v) ∷ m) = let rest = retain keep m in if keep j then (j, v) ∷ rest else rest

  pub lookup-insert :
      (k j : Str) (v : V) (m : Map V)
      → lookup j (insert k v m) ≡ (if str_eq k j then some v else lookup j m)
  unfolding lookup insert
  lookup-insert k j v [] = refl
  lookup-insert k j v ((i, w) ∷ m) =
      ground (arith, str_eq_iff k j, str_eq_iff i k, str_eq_iff i j, lookup-insert k j v m)

  pub lookup-retain :
      (keep : Str → Bool) (j : Str) (m : Map V)
      → lookup j (retain keep m) ≡ (if keep j then lookup j m else none)
  unfolding lookup retain
  lookup-retain keep j [] = ground arith
  lookup-retain keep j ((i, w) ∷ m) = ground (arith, str_eq_iff i j, lookup-retain keep j m)

  -- Each key occurs once.
  abbrev pub Distinct : Map V → Type ℓ
  Distinct [] = Unit
  Distinct ((k, v) ∷ m) = (lookup k m ≡ none) × Distinct m

  pub insert-All {κ} :
      (P : Str × V → Type κ) (k : Str) (v : V) (m : Map V)
      → P (k, v)
      → All P m
      → All P (insert k v m)
  unfolding insert
  insert-All P k v [] p ps = (p, tt)
  insert-All P k v ((j, w) ∷ m) p ps = elim (Bool-cases (str_eq j k)) [
    | inl same ↦ rw same (p, ps.1)
    | inr other ↦ rw other (ps.0, insert-All P k v m p ps.1)
  ]

  pub insert-Distinct : (k : Str) (v : V) (m : Map V) → Distinct m → Distinct (insert k v m)
  unfolding insert lookup
  insert-Distinct k v [] d = (refl, tt)
  insert-Distinct k v ((j, w) ∷ m) d = elim (Bool-cases (str_eq j k)) [
    | inl same ↦
        let here : lookup k m ≡ none = ap (λ i. lookup i m) (sym ((str_eq_iff j k).0 same)) ∙ d.0 in
        rw same (here, d.1)
    | inr other ↦
        let apart : str_eq k j ≡ false = ground (arith, str_eq_iff j k, str_eq_iff k j) in
        rw other (lookup-insert k j v m ∙ rw apart d.0, insert-Distinct k v m d.1)
  ]

  pub retain-Distinct : (keep : Str → Bool) (m : Map V) → Distinct m → Distinct (retain keep m)
  unfolding retain
  retain-Distinct keep [] d = tt
  retain-Distinct keep ((j, w) ∷ m) d = elim (Bool-cases (keep j)) [
    | inl kept ↦ rw kept (lookup-retain keep j m ∙ rw (kept, d.0) refl, retain-Distinct keep m d.1)
    | inr gone ↦ rw gone (retain-Distinct keep m d.1)
  ]

  pub retain-All {κ} :
      (P : Str × V → Type κ) (keep : Str → Bool) (m : Map V) → All P m → All P (retain keep m)
  unfolding retain
  retain-All P keep [] ps = tt
  retain-All P keep ((j, w) ∷ m) ps = elim (Bool-cases (keep j)) [
    | inl kept ↦ rw kept (ps.0, retain-All P keep m ps.1)
    | inr gone ↦ rw gone (retain-All P keep m ps.1)
  ]

  pub lookup-All {κ} :
      (P : Str × V → Type κ) (k : Str) (m : Map V) {v : V}
      → All P m
      → lookup k m ≡ some v
      → P (k, v)
  unfolding lookup
  lookup-All P k [] ps found = absurd (ground arith)
  lookup-All P k ((j, w) ∷ m) {v} ps found = elim (Bool-cases (str_eq j k)) [
    | inl same ↦
        let value : w ≡ v = some_injective (rw same at found) in
        rw (sym ((str_eq_iff j k).0 same), sym value) ps.0
    | inr other ↦ lookup-All P k m ps.1 (rw other at found)
  ]

-- The first of two options that has a value.
abbrev pub or_else {ℓ} : {A : Type ℓ} → Option A → Option A → Option A
or_else none other = other
or_else (some x) other = some x

module _ {ℓ} {A : Type ℓ} where
  pub or_else-none : (o : Option A) → or_else o none ≡ o
  or_else-none none = refl
  or_else-none (some x) = refl

  pub or_else_assoc : (o p q : Option A) → or_else o (or_else p q) ≡ or_else (or_else o p) q
  or_else_assoc none p q = refl
  or_else_assoc (some x) p q = refl
