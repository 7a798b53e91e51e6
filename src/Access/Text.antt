-- ===== src/Access/Text.antt =====
-- Go's `strings` functions that backend/internal/access calls, over the characters of a text.
use Prim.Native.Char.{Char, code}
use tsflow.Prelude.{
  ℕ, String, ◌≡◌, refl, Bool, false, ◌||◌, ◌&&◌, List, [], ◌∷◌, Option, none, some, eqb, leb,
  if◌then◌else◌,
}

-- unicode.IsSpace
is_space : ℕ → Bool
is_space c =
    (leb 9 c && leb c 13)
    || eqb c 32
    || eqb c 0x85
    || eqb c 0xa0
    || eqb c 0x1680
    || (leb 0x2000 c && leb c 0x200a)
    || eqb c 0x2028
    || eqb c 0x2029
    || eqb c 0x202f
    || eqb c 0x205f
    || eqb c 0x3000

trim_left : String → String
trim_left String.[] = String.[]
trim_left (String.◌∷◌ c s) =
    let rest = trim_left s in if is_space (code c) then rest else String.◌∷◌ c s

cons_unless_blank : Char → String → String
cons_unless_blank c String.[] = if is_space (code c) then String.[] else String.◌∷◌ c String.[]
cons_unless_blank c (String.◌∷◌ d s) = String.◌∷◌ c (String.◌∷◌ d s)

trim_right : String → String
trim_right String.[] = String.[]
trim_right (String.◌∷◌ c s) = cons_unless_blank c (trim_right s)

-- strings.TrimSpace
unfoldable pub trim_space : String → String
unfolding is_space trim_left trim_right cons_unless_blank
trim_space s = trim_right (trim_left s)

trim_example : trim_space " a b " ≡ "a b"
unfolding trim_space
trim_example = refl

-- `+` on texts
unfoldable pub append : String → String → String
append String.[] t = t
append (String.◌∷◌ c s) t = String.◌∷◌ c (append s t)

-- strings.TrimPrefix
prefix_rest : String → String → Option String
prefix_rest String.[] s = some s
prefix_rest (String.◌∷◌ c p) String.[] = none
prefix_rest (String.◌∷◌ c p) (String.◌∷◌ d s) =
    if eqb (code c) (code d) then prefix_rest p s else none

or_whole : String → Option String → String
or_whole s none = s
or_whole s (some t) = t

unfoldable pub trim_prefix : String → String → String
unfolding prefix_rest or_whole
trim_prefix p s = or_whole s (prefix_rest p s)

trim_prefix_example : trim_prefix "tag:" "tag:web" ≡ "web"
unfolding trim_prefix
trim_prefix_example = refl

-- strings.Contains for a text of one character
unfoldable pub contains_char : ℕ → String → Bool
contains_char k String.[] = false
contains_char k (String.◌∷◌ c s) = eqb (code c) k || contains_char k s

-- strings.Split at one character, never empty
cons_first : Char → List String → List String
cons_first c [] = String.◌∷◌ c String.[] ∷ []
cons_first c (w ∷ ws) = String.◌∷◌ c w ∷ ws

unfoldable pub split_at : ℕ → String → List String
unfolding cons_first
split_at k String.[] = String.[] ∷ []
split_at k (String.◌∷◌ c s) =
    let rest = split_at k s in if eqb (code c) k then String.[] ∷ rest else cons_first c rest

split_example : split_at b',' "a,,b" ≡ "a" ∷ "" ∷ "b" ∷ []
unfolding split_at
split_example = refl
