-- ===== src/Settlement/DotEnv/Laws.antt =====
-- What the file .env sets.
use creation_of_energy_token.Prelude.Sets.{includes-append}
use creation_of_energy_token.Prelude.{
  ℕ, ◌≡◌, refl, sym, ap, ◌∙◌, true, false, List, [], ◌∷◌, ◌++◌, Option, none, some, Text, text_Eq,
  ◌===◌, ◌==◌, nat_Eq, includes, arith, if◌then◌else◌, All, Option-cases, inl, inr, subst,
  Bool-cases, ==_iff, suc, zero,
}
use creation_of_energy_token.Prelude.Strings.{Env, is_space, split_on-line, split_on}
use creation_of_energy_token.Settlement.DotEnv.{
  double_quote, set_if_unset, parse_line, apply_dot_env_file, apply_line, apply_lines, load_from,
  load_repo_root_dot_env,
}
use creation_of_energy_token.Settlement.DotEnv.Lines.{
  all_chars, is_name_char, line_of, IsName, name-no_space, all_chars-parts, parse_line-line_of,
}

-- What one assignment does, as an equation on every name.
set_if_unset_lem :
    (key v : Text) (env : Env) (name : Text)
    → set_if_unset key v env name
      ≡ (elim (env name) [ some old ↦ some old | none ↦ if name === key then some v else none ])
unfolding set_if_unset
set_if_unset_lem key v env name = ground (arith, text_Eq.beq_iff name key)

-- Which assignment of a list comes first for a name.
abbrev pub first_of : List (Text × Text) → Text → Option Text
first_of [] name = none
first_of ((key, v) ∷ rest) name = if name === key then some v else first_of rest name

abbrev pub or_set : Option Text → Option Text → Option Text
or_set (some old) other = some old
or_set none other = other

-- The file that makes the assignments, one on a line.
abbrev pub text_of : List (Text × Text) → Text
text_of [] = []
text_of (a ∷ rest) = line_of a ++ 10 ∷ text_of rest

-- A name, and a value on one line.
abbrev pub IsAssignment : Text × Text → Type 0
IsAssignment (key, v) = IsName key × (includes v 10 ≡ false)

not_line_end : (c : ℕ) → is_space c ≡ false → (c == 10) ≡ false
not_line_end c h = elim (Bool-cases (c == 10)) [
  | inl e ↦
      let broken : is_space 10 ≡ false = subst (λ x. is_space x ≡ false) ((==_iff c 10).0 e) h in cc
  | inr e ↦ e
]

name-no_line_end : (s : Text) → all_chars is_name_char s ≡ true → includes s 10 ≡ false
name-no_line_end [] h = refl
name-no_line_end (c ∷ s) h =
    rw (not_line_end c (name-no_space c s h), includes)
      (name-no_line_end s (all_chars-parts is_name_char c s h).1)

includes_mid :
    (s v : Text)
    → includes s 10 ≡ false
    → includes v 10 ≡ false
    → includes (s ++ b'=' ∷ double_quote ∷ (v ++ double_quote ∷ [])) 10 ≡ false
includes_mid s v h k =
    includes-append s (b'=' ∷ double_quote ∷ (v ++ double_quote ∷ [])) 10
    ∙ rw (h, includes-append v (double_quote ∷ []) 10, k) refl

line_of-one_line : (key v : Text) → IsAssignment (key, v) → includes (line_of (key, v)) 10 ≡ false
line_of-one_line [] v h = elim h.0 [ ]
line_of-one_line (c ∷ s) v h = includes_mid (c ∷ s) v (name-no_line_end (c ∷ s) h.0) h.1

empty_line : (env : Env) → apply_lines ([] ∷ []) env ≡ env
unfolding apply_lines
empty_line env = refl

apply_line-line_of :
    (key v : Text) (env : Env)
    → IsName key
    → apply_line (line_of (key, v)) env ≡ set_if_unset key v env
unfolding apply_line
apply_line-line_of key v env h = rw (apply_line, parse_line-line_of key v h) refl

or_set-none : (o : Option Text) → or_set o none ≡ o
or_set-none none = refl
or_set-none (some old) = refl

or_set_step :
    (key v : Text) (rest : List (Text × Text)) (env : Env) (name : Text)
    → or_set (set_if_unset key v env name) (first_of rest name)
      ≡ or_set (env name) (first_of ((key, v) ∷ rest) name)
or_set_step key v rest env name = ground (arith, set_if_unset_lem key v env name)

-- A file that makes assignments, one on a line, with the values in double quotes, leaves each
-- variable that is set as it is, and gives every other the value of its first assignment, if it
-- has one; where the keys are names and the values have no line end.
pub apply_dot_env_file-text_of :
    (assignments : List (Text × Text)) (env : Env) (name : Text)
    → All IsAssignment assignments
    → apply_dot_env_file (text_of assignments) env name
      ≡ or_set (env name) (first_of assignments name)
unfolding apply_dot_env_file
apply_dot_env_file-text_of [] env name h =
    ap (λ e. e name) (empty_line env) ∙ sym (or_set-none (env name))
apply_dot_env_file-text_of ((key, v) ∷ rest) env name (this, h) =
    ap (λ lines. apply_lines lines env name)
      (split_on-line 10 (line_of (key, v)) (text_of rest) (line_of-one_line key v this))
    ∙ ap (λ e. apply_lines (split_on 10 (text_of rest)) e name)
        (apply_line-line_of key v env this.0)
    ∙ apply_dot_env_file-text_of rest (set_if_unset key v env) name h
    ∙ or_set_step key v rest env name

set_if_unset-keeps :
    (key v : Text) (env : Env) (name : Text) {old : Text}
    → env name ≡ some old
    → set_if_unset key v env name ≡ some old
set_if_unset-keeps key v env name h = rw (set_if_unset_lem key v env name, h) refl

apply_line-keeps :
    (line : Text) (env : Env) (name : Text) {old : Text}
    → env name ≡ some old
    → apply_line line env name ≡ some old
unfolding apply_line
apply_line-keeps line env name h = elim (Option-cases (parse_line line)) [
  | inl e ↦ rw (apply_line, e) h
  | inr ((key, v), e) ↦ rw (apply_line, e) (set_if_unset-keeps key v env name h)
]

apply_lines-keeps :
    (lines : List Text) (env : Env) (name : Text) {old : Text}
    → env name ≡ some old
    → apply_lines lines env name ≡ some old
unfolding apply_lines
apply_lines-keeps [] env name h = h
apply_lines-keeps (line ∷ lines) env name h =
    apply_lines-keeps lines (apply_line line env) name (apply_line-keeps line env name h)

load_from-keeps :
    (read : Text → Option Text) (parent : Text → Text) (rounds : ℕ) (dir : Text) (env : Env)
    (name : Text) {old : Text}
    → env name ≡ some old
    → load_from read parent rounds dir env name ≡ some old
unfolding load_from apply_dot_env_file
load_from-keeps read parent zero dir env name h = h
load_from-keeps read parent (suc rounds) dir env name h = elim (Option-cases (read dir)) [
  | inr (text, e) ↦ rw (load_from, e) (apply_lines-keeps (split_on 10 text) env name h)
  | inl e ↦ elim (Bool-cases (parent dir === dir)) [
    | inl top ↦ rw (load_from, e, top) h
    | inr below ↦
        rw (load_from, e, below) (load_from-keeps read parent rounds (parent dir) env name h)
  ]
]

-- Whatever files there are, loading changes no variable that is set.
pub load_repo_root_dot_env-keeps :
    (read : Text → Option Text) (parent : Text → Text) (cwd : Text) (env : Env) (name : Text)
    {old : Text}
    → env name ≡ some old
    → load_repo_root_dot_env read parent cwd env name ≡ some old
unfolding load_repo_root_dot_env
load_repo_root_dot_env-keeps read parent cwd env name h =
    load_from-keeps read parent 8 cwd env name h
