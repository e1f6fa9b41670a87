-- ===== src/Prelude/Text.antt =====
-- Texts: `+` on strings, decimal numerals, and Go's `strings` functions over lists of code points.
use Prim.Native.Char.{code}
use Prim.Native.String.{◌++◌ as append}
use text.Mathlib.TextLemmas.{nil-append, cons-append}
use k8s_docker_operator.Prelude.{
  ℕ, zero, suc, ◌/◌, ◌%◌, String, Bool, true, false, ◌&&◌, ◌||◌, List, [], ◌∷◌, Option, none, some,
  leb, ltb, ◌==◌, if◌then◌else◌, str_eq, eq_iff, ◌≡◌, ◌≢◌, refl, ap, ◌++◌, Bool-cases, inl, inr,
}
use k8s_docker_operator.Prelude.Int.{ℤ, pos, negsuc}

infixr 66 ◌<>◌
abbrev pub ◌<>◌ : String → String → String
s <> t = append s t

-- The code points of a text.
abbrev pub codes : String → List ℕ
codes String.[] = []
codes (String.◌∷◌ c s) = code c ∷ codes s

digit : ℕ → String
digit d =
    if d == 0
    then "0"
    else if d == 1
    then "1"
    else if d == 2
    then "2"
    else if d == 3
    then "3"
    else if d == 4
    then "4"
    else if d == 5
    then "5"
    else if d == 6
    then "6"
    else if d == 7
    then "7"
    else if d == 8
    then "8"
    else "9"

-- Each round divides by ten, so one more round than the number suffices.
digits : ℕ → ℕ → String
unfolding digit
digits zero n = ""
digits (suc fuel) n =
    let front = digits fuel (n / 10) in if ltb n 10 then digit n else front <> digit (n % 10)

-- `%d` of a number.
unfoldable pub show_ℕ : ℕ → String
unfolding digits
show_ℕ n = digits (suc n) n

unfoldable pub show_ℤ : ℤ → String
unfolding show_ℕ
show_ℤ (pos n) = show_ℕ n
show_ℤ (negsuc n) = "-" <> show_ℕ (suc n)

-- A Go map with string keys, as the list of its entries.
module _ {V : Type 0} where
  unfoldable pub find_key : String → List (String × V) → Option V
  find_key k [] = none
  find_key k ((j, v) ∷ m) = if str_eq j k then some v else find_key k m

  unfoldable pub delete_key : String → List (String × V) → List (String × V)
  delete_key k [] = []
  delete_key k ((j, v) ∷ m) =
      let rest = delete_key k m in if str_eq j k then rest else (j, v) ∷ rest

  unfoldable pub store_key : String → V → List (String × V) → List (String × V)
  unfolding delete_key
  store_key k v m = (k, v) ∷ delete_key k m

-- unicode.IsSpace
abbrev pub is_space : ℕ → Bool
is_space c =
    (leb 9 c && leb c 13)
    || c == 32
    || c == 0x85
    || c == 0xa0
    || c == 0x1680
    || (leb 0x2000 c && leb c 0x200a)
    || c == 0x2028
    || c == 0x2029
    || c == 0x202f
    || c == 0x205f
    || c == 0x3000

unfoldable pub trim_left : List ℕ → List ℕ
trim_left [] = []
trim_left (c ∷ s) = if is_space c then trim_left s else c ∷ s

abbrev is_nil : List ℕ → Bool
is_nil [] = true
is_nil (c ∷ s) = false

unfoldable pub trim_right : List ℕ → List ℕ
trim_right [] = []
trim_right (c ∷ s) = let rest = trim_right s in if is_nil rest && is_space c then [] else c ∷ rest

-- strings.TrimSpace
unfoldable pub trim_space : List ℕ → List ℕ
unfolding trim_left trim_right
trim_space s = trim_right (trim_left s)

-- `strings.HasSuffix` and `strings.TrimSuffix` of one character: the text without it, if it ends in it.
unfoldable pub cut_suffix : ℕ → List ℕ → Option (List ℕ)
cut_suffix c [] = none
cut_suffix c (x ∷ []) = if x == c then some [] else none
cut_suffix c (x ∷ y ∷ s) = elim (cut_suffix c (y ∷ s)) [
  | none ↦ none
  | some front ↦ some (x ∷ front)
]

-- strings.Split at a separator of one character.
unfoldable pub split : ℕ → List ℕ → List (List ℕ)
split c [] = [] ∷ []
split c (x ∷ s) =
    if x == c
    then [] ∷ split c s
    else elim (split c s) [ [] ↦ (x ∷ []) ∷ [] | w ∷ ws ↦ (x ∷ w) ∷ ws ]

abbrev begin_with : String → List String → List String
begin_with c [] = c ∷ []
begin_with c (p ∷ ps) = (c <> p) ∷ ps

-- The same on texts that stay texts; the separator is a text of one character.
unfoldable pub split_string : String → String → List String
split_string sep String.[] = "" ∷ []
split_string sep (String.◌∷◌ c s) =
    let rest = split_string sep s in
    if str_eq (String.◌∷◌ c "") sep then "" ∷ rest else begin_with (String.◌∷◌ c "") rest

pub codes-append : (s t : String) → codes (s <> t) ≡ codes s ++ codes t
codes-append String.[] t = rw nil-append refl
codes-append (String.◌∷◌ c s) t = rw cons-append (ap (λ l. code c ∷ l) (codes-append s t))

-- Two texts that differ are told apart.
pub str_ne : (s t : String) → s ≢ t → str_eq s t ≡ false
str_ne s t h = elim (Bool-cases (str_eq s t)) [ inl e ↦ absurd (h ((eq_iff s t).0 e)) | inr e ↦ e ]
