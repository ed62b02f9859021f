-- ===== src/Base/Text.antt =====
-- Texts as lists of bytes, their equality, `strconv.Itoa` and the verbs `%s` and `%d` of `fmt`.
use Prim.Native.Char.{code}
use Prim.Native.String.{String}
use lag_radar.Base.{
  ℕ, zero, suc, ◌+◌, ◌-◌, ◌*◌, ◌/◌, ◌%◌, ◌^◌, ◌<◌, ◌≤◌, ◌≡◌, refl, sym, ap, ◌∙◌, ◌↔◌, ◌≢◌, Bool,
  true, false, ◌&&◌, List, [], ◌∷◌, ◌++◌, arith, ltb, leb, ◌==◌, if◌then◌else◌, Option, none, some,
  length, length-append, All, All-append, All-map, Bool-cases, inl, inr,
}
use lag_radar.Base.Int.{ℤ, pos, negsuc, ◌≤ℤ◌}
use native.Mathlib.Nat.{pow-suc}

abbrev pub Str : Type 0
Str = List ℕ

-- The code points of a literal: its bytes, if it is ASCII.
abbrev pub codes : String → Str
codes String.[] = []
codes (String.◌∷◌ c s) = code c ∷ codes s

abbrev pub colon : ℕ
colon = b':'

unfoldable pub str_eq : Str → Str → Bool
str_eq [] [] = true
str_eq [] (y ∷ ys) = false
str_eq (x ∷ xs) [] = false
str_eq (x ∷ xs) (y ∷ ys) = x == y && str_eq xs ys

str_eq_sound : (xs ys : Str) → str_eq xs ys ≡ true → xs ≡ ys
unfolding str_eq
str_eq_sound [] [] h = refl
str_eq_sound [] (y ∷ ys) h = ground arith
str_eq_sound (x ∷ xs) [] h = ground arith
str_eq_sound (x ∷ xs) (y ∷ ys) h = ground (arith, str_eq_sound xs ys)

pub str_eq_refl : (xs : Str) → str_eq xs xs ≡ true
unfolding str_eq
str_eq_refl [] = refl
str_eq_refl (x ∷ xs) = ground (arith, str_eq_refl xs)

pub str_eq_iff : (xs ys : Str) → (str_eq xs ys ≡ true) ↔ (xs ≡ ys)
str_eq_iff xs ys = (str_eq_sound xs ys, λ e. rw e (str_eq_refl ys))

-- The decimal digits of `n`; twenty are enough for an `int64`.
digits : ℕ → ℕ → Str
digits zero n = []
digits (suc f) n =
    let front = digits f (n / 10) in
    if ltb n 10 then (b'0' + n) ∷ [] else front ++ (b'0' + n % 10) ∷ []

abbrev max_digits : ℕ
max_digits = 20

-- `%d` of a signed integer, and `strconv.Itoa` of one.
unfoldable pub itoa : ℤ → Str
unfolding digits
itoa (pos n) = digits max_digits n
itoa (negsuc n) = b'-' ∷ digits max_digits (suc n)

-- A text with no colon in it.
abbrev pub NoColon : Str → Type 0
NoColon = All λ c. c ≢ colon

abbrev IsDigits : Str → Type 0
IsDigits = All λ c. (b'0' ≤ c) × (c < b'0' + 10)

-- The number that a text of digits stands for.
value : ℕ → Str → ℕ
value acc [] = acc
value acc (c ∷ cs) = value (acc * 10 + (c - b'0')) cs

value-append :
    (acc : ℕ) (xs : Str) (c : ℕ) → value acc (xs ++ c ∷ []) ≡ value acc xs * 10 + (c - b'0')
unfolding value
value-append acc [] c = refl
value-append acc (x ∷ xs) c = value-append (acc * 10 + (x - b'0')) xs c

value-digits : (f n : ℕ) → n < 10 ^ f → value 0 (digits f n) ≡ n
unfolding digits value
value-digits zero n h = omega arith
value-digits (suc f) n h = elim (Bool-cases (ltb n 10)) [
  | inl one ↦ rw one (ground arith)
  | inr more ↦
      rw (more, value-append 0 (digits f (n / 10)) (b'0' + n % 10))
        (omega (arith, value-digits f (n / 10) (omega (arith, pow-suc 10 f))))
]

digits-IsDigits : (f n : ℕ) → IsDigits (digits f n)
unfolding digits
digits-IsDigits zero n = tt
digits-IsDigits (suc f) n = elim (Bool-cases (ltb n 10)) [
  | inl one ↦ rw one (ground arith)
  | inr more ↦ rw more (
      All-append _ (digits f (n / 10)) ((b'0' + n % 10) ∷ []) (digits-IsDigits f (n / 10))
        (omega arith))
]

NoColon-of_IsDigits : (s : Str) → IsDigits s → NoColon s
NoColon-of_IsDigits = All-map _ _ λ c h. omega arith

pub itoa-NoColon : (z : ℤ) → NoColon (itoa z)
unfolding itoa
itoa-NoColon (pos n) = NoColon-of_IsDigits _ (digits-IsDigits max_digits n)
itoa-NoColon (negsuc n) = (omega arith, NoColon-of_IsDigits _ (digits-IsDigits max_digits (suc n)))

-- The number that a text printed by `itoa` stands for.
atoi : Str → ℤ
atoi [] = pos 0
atoi (c ∷ cs) = if c == b'-' then negsuc (value 0 cs - 1) else pos (value 0 (c ∷ cs))

atoi_of_IsDigits : (s : Str) → IsDigits s → atoi s ≡ pos (value 0 s)
unfolding atoi value
atoi_of_IsDigits [] h = refl
atoi_of_IsDigits (c ∷ cs) h = ground arith

-- The range of an `int32`.
abbrev pub IsInt32 : ℤ → Type 0
IsInt32 z = (negsuc (2 ^ 31 - 1) ≤ℤ z) × (z ≤ℤ pos (2 ^ 31 - 1))

atoi-itoa : (z : ℤ) → IsInt32 z → atoi (itoa z) ≡ z
unfolding itoa
atoi-itoa (pos n) h =
    atoi_of_IsDigits (digits max_digits n) (digits-IsDigits max_digits n)
    ∙ ap pos (value-digits max_digits n (omega arith))
atoi-itoa (negsuc n) h =
    unfold atoi in
    (ap (λ v. negsuc (v - 1)) (value-digits max_digits (suc n) (omega arith))
      ∙ ap negsuc (omega arith))

-- Different `int32`s are printed differently.
pub itoa-injective : (y z : ℤ) → IsInt32 y → IsInt32 z → itoa y ≡ itoa z → y ≡ z
itoa-injective y z hy hz e = sym (atoi-itoa y hy) ∙ ap atoi e ∙ atoi-itoa z hz

all_digits : Str → Bool
all_digits [] = true
all_digits (c ∷ cs) = leb b'0' c && leb c b'9' && all_digits cs

-- An unsigned decimal; `none` is a syntax error.
parse_digits : Str → Option ℕ
parse_digits [] = none
parse_digits (c ∷ cs) = if all_digits (c ∷ cs) then some (value 0 (c ∷ cs)) else none

abbrev max_positive : ℕ
max_positive = 2 ^ 63 - 1

abbrev positive : Option ℕ → ℤ
positive none = pos 0
positive (some n) = pos (if leb n max_positive then n else max_positive)

abbrev negative : Option ℕ → ℤ
negative none = pos 0
negative (some zero) = pos 0
negative (some (suc n)) = negsuc (if leb n max_positive then n else max_positive)

-- The value of `strconv.ParseInt(s, 10, 64)`, which is 0 with a syntax error and the nearest `int64`
-- with a range error.
unfoldable pub parse_int : Str → ℤ
unfolding parse_digits all_digits value
parse_int [] = pos 0
parse_int (c ∷ cs) =
    if c == b'-'
    then negative (parse_digits cs)
    else if c == b'+'
    then positive (parse_digits cs)
    else positive (parse_digits (c ∷ cs))

all_digits_of_IsDigits : (s : Str) → IsDigits s → all_digits s ≡ true
unfolding all_digits
all_digits_of_IsDigits [] h = refl
all_digits_of_IsDigits (c ∷ cs) h = ground (arith, all_digits_of_IsDigits cs h.1)

parse_int_of_IsDigits :
    (s : Str) → 1 ≤ length s → IsDigits s → value 0 s < 2 ^ 63 → parse_int s ≡ pos (value 0 s)
unfolding parse_int value
parse_int_of_IsDigits [] ne h fits = absurd (omega arith)
parse_int_of_IsDigits (c ∷ cs) ne h fits = ground (arith, all_digits_of_IsDigits (c ∷ cs) h)

length-digits : (f n : ℕ) → 1 ≤ length (digits (suc f) n)
unfolding digits
length-digits f n = ground (arith, length-append (digits f (n / 10)) ((b'0' + n % 10) ∷ []))

-- What is printed is read again.
pub parse_int-itoa : (n : ℕ) → n < 2 ^ 63 → parse_int (itoa (pos n)) ≡ pos n
unfolding itoa
parse_int-itoa n h =
    let same = value-digits max_digits n (omega arith) in
    parse_int_of_IsDigits (digits max_digits n) (length-digits 19 n) (digits-IsDigits max_digits n)
      (omega (arith, same))
    ∙ ap pos same
