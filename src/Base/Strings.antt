-- ===== src/Base/Strings.antt =====
-- Go's package strings: prefixes, suffixes, and splitting at a byte.
use lag_radar.Base.{
  ℕ, ◌≡◌, refl, sym, ap, ◌∙◌, ◌≢◌, Bool, true, false, ◌&&◌, ◌||◌, List, [], ◌∷◌, ◌++◌, arith, ◌==◌,
  if◌then◌else◌, All, Bool-cases, ==_iff, inl, inr,
}
use lag_radar.Base.Text.{Str, str_eq}

abbrev pub slash : ℕ
slash = b'/'

-- A text with no slash in it.
abbrev pub NoSlash : Str → Type 0
NoSlash = All λ c. c ≢ slash

unfoldable pub has_prefix : Str → Str → Bool
has_prefix [] s = true
has_prefix (p ∷ ps) [] = false
has_prefix (p ∷ ps) (c ∷ cs) = p == c && has_prefix ps cs

-- `strings.HasSuffix(s, suffix)`, with the suffix first.
unfoldable pub has_suffix : Str → Str → Bool
has_suffix suffix [] = str_eq [] suffix
has_suffix suffix (c ∷ cs) = str_eq (c ∷ cs) suffix || has_suffix suffix cs

-- `strings.Contains(s, part)`, with the part first.
unfoldable pub has_part : Str → Str → Bool
has_part part [] = has_prefix part []
has_part part (c ∷ cs) = has_prefix part (c ∷ cs) || has_part part cs

unfoldable pub without : Str → Str → Str
without [] s = s
without (p ∷ ps) [] = []
without (p ∷ ps) (c ∷ cs) = without ps cs

-- `strings.TrimPrefix(s, prefix)`, with the prefix first.
unfoldable pub trim_prefix : Str → Str → Str
unfolding has_prefix without
trim_prefix prefix s = if has_prefix prefix s then without prefix s else s

abbrev longer : ℕ → List Str → List Str
longer c [] = (c ∷ []) ∷ []
longer c (part ∷ parts) = (c ∷ part) ∷ parts

-- `strings.Split(s, "/")`
unfoldable pub split_slashes : Str → List Str
split_slashes [] = [] ∷ []
split_slashes (c ∷ cs) =
    let parts = split_slashes cs in if c == slash then [] ∷ parts else longer c parts

-- `strings.Join(parts, "/")`
unfoldable pub join_slashes : List Str → Str
join_slashes [] = []
join_slashes (part ∷ []) = part
join_slashes (part ∷ next ∷ parts) = part ++ (slash ∷ join_slashes (next ∷ parts))

-- `strings.SplitN(s, "/", 2)`
unfoldable pub split_once : Str → List Str
split_once [] = [] ∷ []
split_once (c ∷ cs) =
    let parts = split_once cs in if c == slash then [] ∷ cs ∷ [] else longer c parts

has_prefix-append : (p s : Str) → has_prefix p (p ++ s) ≡ true
unfolding has_prefix
has_prefix-append [] s = refl
has_prefix-append (c ∷ p) s = ground (arith, has_prefix-append p s)

without-append : (p s : Str) → without p (p ++ s) ≡ s
unfolding without
without-append [] s = refl
without-append (c ∷ p) s = without-append p s

pub trim_prefix-append : (p s : Str) → trim_prefix p (p ++ s) ≡ s
unfolding trim_prefix
trim_prefix-append p s = rw (has_prefix-append p s) (without-append p s)

pub has_part-append : (a p s : Str) → has_part p (a ++ (p ++ s)) ≡ true
unfolding has_part has_prefix
has_part-append [] [] [] = refl
has_part-append [] [] (c ∷ s) = refl
has_part-append [] (c ∷ p) s = rw (has_prefix-append (c ∷ p) s)
has_part-append (c ∷ a) p s = ground (arith, has_part-append a p s)

pub split_slashes-append :
    (a s : Str) → NoSlash a → split_slashes (a ++ (slash ∷ s)) ≡ a ∷ split_slashes s
unfolding split_slashes
split_slashes-append [] s h = ground arith
split_slashes-append (c ∷ a) s h = ground (arith, split_slashes-append a s h.1)

pub split_once-append : (a s : Str) → NoSlash a → split_once (a ++ (slash ∷ s)) ≡ a ∷ s ∷ []
unfolding split_once
split_once-append [] s h = ground arith
split_once-append (c ∷ a) s h = ground (arith, split_once-append a s h.1)

join-longer :
    (c : ℕ) (part : Str) (parts : List Str)
    → join_slashes (longer c (part ∷ parts)) ≡ c ∷ join_slashes (part ∷ parts)
unfolding join_slashes
join-longer c part [] = refl
join-longer c part (next ∷ parts) = refl

-- A split list is not empty.
pub split_slashes-cons :
    (s : Str) → (part : Str) × (parts : List Str) × (split_slashes s ≡ part ∷ parts)
unfolding split_slashes
split_slashes-cons [] = ([], [], refl)
split_slashes-cons (c ∷ cs) =
    let (part, parts, e) = split_slashes-cons cs in
    elim (Bool-cases (c == slash)) [
      | inl cut ↦ ([], split_slashes cs, rw cut refl)
      | inr kept ↦ (c ∷ part, parts, rw (kept, e) refl)
    ]

pub join-split : (s : Str) → join_slashes (split_slashes s) ≡ s
unfolding split_slashes join_slashes
join-split [] = refl
join-split (c ∷ cs) =
    let (part, parts, e) = split_slashes-cons cs in
    let rest : join_slashes (part ∷ parts) ≡ cs = rw e at (join-split cs) in
    elim (Bool-cases (c == slash)) [
      | inl cut ↦
          rw (cut, e) (ap (λ t. slash ∷ t) rest ∙ ap (λ d. d ∷ cs) (sym ((==_iff c slash).0 cut)))
      | inr kept ↦ rw (kept, e) (join-longer c part parts ∙ ap (λ t. c ∷ t) rest)
    ]
