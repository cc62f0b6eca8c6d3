-- ===== src/Prelude/Strings.antt =====
-- Methods of JavaScript strings on code units, and the process's environment variables.
use Prim.Native.Nat.{ℕ}
use mathlib.Core.Path.{◌≡◌, refl}
use mathlib.Core.Logic.{inl, inr}
use native.Mathlib.Omega.{arith}
use mathlib.Core.Bool.{Bool, true, false, ◌&&◌, ◌||◌}
use mathlib.Core.Option.{Option, none, some}
use mathlib.Core.List.{List, [], ◌∷◌, ◌++◌}
use creation_of_energy_token.Prelude.Tests.{◌==◌, leb, if◌then◌else◌, Bool-cases}
use creation_of_energy_token.Prelude.Equality.{Text, codes, text_Eq, nat_Eq, includes, ===_refl}

-- `process.env`: a variable's value, where it is set.
abbrev pub Env : Type 0
Env = Text → Option Text

-- `s.startsWith(prefix)`
unfoldable pub starts_with : Text → Text → Bool
starts_with [] s = true
starts_with (p ∷ prefix) [] = false
starts_with (p ∷ prefix) (c ∷ s) = p == c && starts_with prefix s

-- `s.includes(part)`
unfoldable pub has_part : Text → Text → Bool
unfolding starts_with
has_part part [] = starts_with part []
has_part part (c ∷ s) = starts_with part (c ∷ s) || has_part part s

-- White space and line ends, as `trim` and `\s` see them.
abbrev pub is_space : ℕ → Bool
is_space c =
    leb 9 c && leb c 13
    || leb 8192 c && leb c 8202
    || includes (32 ∷ 160 ∷ 5760 ∷ 8232 ∷ 8233 ∷ 8239 ∷ 8287 ∷ 12288 ∷ 65279 ∷ []) c

unfoldable pub trim_start : Text → Text
trim_start [] = []
trim_start (c ∷ s) = let rest = trim_start s in if is_space c then rest else c ∷ s

unfoldable pub trim_end : Text → Text
trim_end [] = []
trim_end (c ∷ s) = elim (trim_end s) [
  | [] ↦ if is_space c then [] else c ∷ []
  | d ∷ rest ↦ c ∷ d ∷ rest
]

-- `s.trim()`
unfoldable pub trim : Text → Text
unfolding trim_start trim_end
trim s = trim_start (trim_end s)

-- `Boolean(s)` of a string
abbrev pub is_nonempty : Text → Bool
is_nonempty [] = false
is_nonempty (c ∷ s) = true

-- `s.split(separator)`, for a separator of one character
unfoldable pub split_on : ℕ → Text → List Text
split_on separator [] = [] ∷ []
split_on separator (c ∷ s) =
    let parts = split_on separator s in
    if c == separator
    then [] ∷ parts
    else (elim parts [ [] ↦ (c ∷ []) ∷ [] | part ∷ others ↦ (c ∷ part) ∷ others ])

-- A hexadecimal digit, of either case.
abbrev pub is_hex : ℕ → Bool
is_hex c = leb 48 c && leb c 57 || leb 65 c && leb c 70 || leb 97 c && leb c 102

abbrev pub all_hex : Text → Bool
all_hex [] = true
all_hex (c ∷ s) = is_hex c && all_hex s

-- `xs.join(",")`
abbrev pub join_commas : List Text → Text
join_commas [] = []
join_commas (s ∷ []) = s
join_commas (s ∷ t ∷ ts) = s ++ codes "," ++ join_commas (t ∷ ts)

-- `o?.trim() || d`: the trimmed value where it is not empty.
unfoldable pub trimmed : Option Text → Option Text
unfolding trim
trimmed none = none
trimmed (some s) = let t = trim s in if is_nonempty t then some t else none

-- `a || b`, and `a ?? b`, of values that may be missing.
abbrev pub or_first {ℓ} : {A : Type ℓ} → Option A → Option A → Option A
or_first (some a) o = some a
or_first none o = o

-- The first line of a text.
pub split_on-line :
    (separator : ℕ) (line rest : Text)
    → includes line separator ≡ false
    → split_on separator (line ++ separator ∷ rest) ≡ line ∷ split_on separator rest
unfolding split_on
split_on-line separator [] rest h = ground (arith, ===_refl separator)
split_on-line separator (c ∷ line) rest h =
    let later = split_on-line separator line rest in
    elim (Bool-cases (c == separator)) [
      | inl same ↦ ground arith
      | inr other ↦ rw (other, later (ground arith)) refl
    ]
