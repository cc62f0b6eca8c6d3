-- ===== src/Settlement/DotEnv.antt =====
-- layer5/settlement/src/loadRepoRootEnv.ts: the file .env of the repository. The files and the
-- names of directories are outside.
pub mod Lines
pub mod Laws
use creation_of_energy_token.Prelude.{
  ℕ, zero, suc, Bool, true, false, ◌&&◌, ◌||◌, List, [], ◌∷◌, Option, none, some, Text, text_Eq,
  ◌===◌, ◌==◌, if◌then◌else◌, drop,
}
use creation_of_energy_token.Prelude.Strings.{Env, trim, is_nonempty, split_on}

-- The text before the first such character and the text after it, if there is one.
unfoldable pub cut_at : ℕ → Text → Option (Text × Text)
cut_at c [] = none
cut_at c (d ∷ s) =
    let later = cut_at c s in
    if d == c
    then some ([], s)
    else (elim later [ none ↦ none | some (before, rest) ↦ some (d ∷ before, rest) ])

abbrev pub first_is : ℕ → Text → Bool
first_is c [] = false
first_is c (d ∷ s) = d == c

abbrev pub last_is : ℕ → Text → Bool
last_is c [] = false
last_is c (d ∷ []) = d == c
last_is c (d ∷ e ∷ s) = last_is c (e ∷ s)

abbrev pub drop_last : Text → Text
drop_last [] = []
drop_last (d ∷ []) = []
drop_last (d ∷ e ∷ s) = d ∷ drop_last (e ∷ s)

abbrev pub is_quoted : ℕ → Text → Bool
is_quoted quote v = first_is quote v && last_is quote v

abbrev pub double_quote : ℕ
double_quote = 34

abbrev pub single_quote : ℕ
single_quote = 39

-- `v.slice(1, -1)` of a value in quotes
unfoldable pub unquote : Text → Text
unquote v = if is_quoted double_quote v || is_quoted single_quote v then drop_last (drop 1 v) else v

-- A variable that is set keeps its value.
unfoldable pub set_if_unset : Text → Text → Env → Env
set_if_unset key v env = elim (env key) as (λ o. Env) [
  | some old ↦ env
  | none ↦ λ name. if name === key then some v else env name
]

-- The assignment that a line makes, if it makes one. Trimming takes the byte order mark away too.
unfoldable pub parse_line : Text → Option (Text × Text)
unfolding trim cut_at unquote
parse_line line =
    let t = trim line in
    if first_is b'#' t then none else (elim (cut_at b'=' t) [
      | none ↦ none
      | some ([], rest) ↦ none
      | some (c ∷ before, rest) ↦ some (trim (c ∷ before), unquote (trim rest))
    ])

unfoldable pub apply_line : Text → Env → Env
unfolding parse_line set_if_unset
apply_line line env = elim (parse_line line) as (λ o. Env) [
  | none ↦ env
  | some (key, v) ↦ set_if_unset key v env
]

unfoldable pub apply_lines : List Text → Env → Env
unfolding apply_line
apply_lines [] env = env
apply_lines (line ∷ lines) env = apply_lines lines (apply_line line env)

-- Lines end in a line feed; a carriage return before it is trimmed away with the line.
unfoldable pub apply_dot_env_file : Text → Env → Env
unfolding apply_lines split_on
apply_dot_env_file text env = apply_lines (split_on 10 text) env

-- The loop over the directories upwards, with the rounds that are left: `read` gives the text of a
-- directory's file .env, where there is one.
unfoldable pub load_from : (Text → Option Text) → (Text → Text) → ℕ → Text → Env → Env
unfolding apply_dot_env_file
load_from read parent zero dir env = env
load_from read parent (suc rounds) dir env =
    let above = load_from read parent rounds (parent dir) env in
    elim (read dir) as (λ o. Env) [
      | some text ↦ apply_dot_env_file text env
      | none ↦ if parent dir === dir then env else above
    ]

unfoldable pub load_repo_root_dot_env : (Text → Option Text) → (Text → Text) → Text → Env → Env
unfolding load_from
load_repo_root_dot_env read parent cwd env = load_from read parent 8 cwd env
