-- ===== src/Collector/Window/Keys.antt =====
-- The keys of the windows: when they tell partitions apart.
use mathlib.Core.List.{reverse-cons}
use lag_radar.Base.{
  ◌≡◌, sym, ap, ◌∙◌, [], ◌∷◌, ◌++◌, reverse, reverse-append, reverse-reverse, append_assoc, arith,
  All-append,
}
use lag_radar.Base.Int.{ℤ}
use lag_radar.Base.Text.{Str, colon, itoa, itoa-NoColon, itoa-injective, NoColon, IsInt32}
use lag_radar.Collector.Window.{window_key}

reverse-NoColon : (s : Str) → NoColon s → NoColon (reverse s)
reverse-NoColon [] h = tt
reverse-NoColon (c ∷ s) h =
    rw (reverse-cons c s) (All-append _ (reverse s) (c ∷ []) (reverse-NoColon s h.1) (h.0, tt))

-- A text is split at its first colon in one way.
pub split_at_colon :
    (a b r s : Str)
    → NoColon a
    → NoColon b
    → a ++ (colon ∷ r) ≡ b ++ (colon ∷ s)
    → (a ≡ b) × (r ≡ s)
split_at_colon [] [] r s ha hb e = ground arith
split_at_colon [] (y ∷ b) r s ha hb e = absurd (ground arith)
split_at_colon (x ∷ a) [] r s ha hb e = absurd (ground arith)
split_at_colon (x ∷ a) (y ∷ b) r s ha hb e = ground (arith, split_at_colon a b r s ha.1 hb.1)

reverse-window_key :
    (g t : Str) (p : ℤ)
    → reverse (window_key g t p) ≡ reverse (itoa p) ++ (colon ∷ (reverse t ++ (colon ∷ reverse g)))
unfolding window_key
reverse-window_key g t p = simp (reverse-append, reverse-cons, append_assoc)

reverse-injective : (a b : Str) → reverse a ≡ reverse b → a ≡ b
reverse-injective a b e = sym (reverse-reverse a) ∙ ap reverse e ∙ reverse-reverse b

-- Two partitions of groups have one key only if they are one partition of one group, provided that
-- no topic has a colon in its name. A group may have colons.
pub window_key-injective :
    (g h t u : Str) (p q : ℤ)
    → NoColon t
    → NoColon u
    → IsInt32 p
    → IsInt32 q
    → window_key g t p ≡ window_key h u q
    → (g ≡ h) × (t ≡ u) × (p ≡ q)
window_key-injective g h t u p q ht hu hp hq e =
    let turned = sym (reverse-window_key g t p) ∙ ap reverse e ∙ reverse-window_key h u q in
    let outer =
      split_at_colon (reverse (itoa p)) (reverse (itoa q)) _ _ (reverse-NoColon _ (itoa-NoColon p))
        (reverse-NoColon _ (itoa-NoColon q)) turned in
    let inner =
      split_at_colon (reverse t) (reverse u) _ _ (reverse-NoColon t ht) (reverse-NoColon u hu)
        outer.1 in
    (
      reverse-injective g h inner.1,
      reverse-injective t u inner.0,
      itoa-injective p q hp hq (reverse-injective _ _ outer.0),
    )
