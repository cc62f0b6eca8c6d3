-- ===== src/Settlement/DotEnv/Lines.antt =====
-- A line that is written for an assignment makes it.
use mathlib.Core.Path.{ap₂}
use creation_of_energy_token.Prelude.{
  ℕ, ◌≡◌, refl, sym, ap, ◌∙◌, append_assoc, Bool, true, false, not, ◌&&◌, [], ◌∷◌, ◌++◌, some, Text,
  text_Eq, ◌==◌, nat_Eq, includes, arith,
}
use creation_of_energy_token.Prelude.Strings.{is_space, trim, trim_start, trim_end}
use creation_of_energy_token.Settlement.DotEnv.{
  cut_at, first_is, last_is, drop_last, double_quote, unquote, parse_line,
}

abbrev pub all_chars : (ℕ → Bool) → Text → Bool
all_chars p [] = true
all_chars p (c ∷ s) = p c && all_chars p s

-- A name of a variable: not empty, without white space, `=` and `#`.
abbrev pub is_name_char : ℕ → Bool
is_name_char c = not (is_space c) && not (c == b'=') && not (c == b'#')

trim_start-keeps : (c : ℕ) (s : Text) → is_space c ≡ false → trim_start (c ∷ s) ≡ c ∷ s
unfolding trim_start
trim_start-keeps c s h = ground arith

trim_end-keeps : (s : Text) (c : ℕ) → is_space c ≡ false → trim_end (s ++ c ∷ []) ≡ s ++ c ∷ []
unfolding trim_end
trim_end-keeps [] c h = ground arith
trim_end-keeps (d ∷ []) c h = rw (trim_end-keeps [] c h, trim_end) refl
trim_end-keeps (d ∷ e ∷ s) c h = ground (arith, trim_end-keeps (e ∷ s) c h)

cut_at-append :
    (c : ℕ) (s rest : Text) → includes s c ≡ false → cut_at c (s ++ c ∷ rest) ≡ some (s, rest)
unfolding cut_at
cut_at-append c [] rest h = ground arith
cut_at-append c (d ∷ s) rest h = ground (arith, cut_at-append c s rest)

-- A variable's value is written in double quotes, so that its spaces are kept.
abbrev pub line_of : Text × Text → Text
line_of (key, v) = key ++ b'=' ∷ double_quote ∷ (v ++ double_quote ∷ [])

last_is-append : (c : ℕ) (s : Text) → last_is c (s ++ c ∷ []) ≡ true
last_is-append c [] = ground arith
last_is-append c (d ∷ []) = ground arith
last_is-append c (d ∷ e ∷ s) = last_is-append c (e ∷ s)

drop_last-append : (c : ℕ) (s : Text) → drop_last (s ++ c ∷ []) ≡ s
drop_last-append c [] = refl
drop_last-append c (d ∷ []) = refl
drop_last-append c (d ∷ e ∷ s) = ap (λ t. d ∷ t) (drop_last-append c (e ∷ s))

unquote-quoted : (v : Text) → unquote (double_quote ∷ (v ++ double_quote ∷ [])) ≡ v
unfolding unquote
unquote-quoted v =
    ground (arith, last_is-append double_quote (double_quote ∷ v), drop_last-append double_quote v)

-- The key of an assignment: a first character and the others, none of which ends the key.
abbrev pub IsName : Text → Type 0
IsName [] = ⊥
IsName (c ∷ s) = all_chars is_name_char (c ∷ s) ≡ true

name-no_equals : (s : Text) → all_chars is_name_char s ≡ true → includes s b'=' ≡ false
name-no_equals [] h = refl
name-no_equals (c ∷ s) h = ground (arith, name-no_equals s)

pub all_chars-parts :
    (p : ℕ → Bool) (c : ℕ) (s : Text)
    → all_chars p (c ∷ s) ≡ true
    → (p c ≡ true) × (all_chars p s ≡ true)
all_chars-parts p c s h = ground arith

none_of_three : (a b d : Bool) → (not a && not b && not d) ≡ true → a ≡ false
none_of_three a b d h = ground arith

pub name-no_space : (c : ℕ) (s : Text) → all_chars is_name_char (c ∷ s) ≡ true → is_space c ≡ false
name-no_space c s h =
    none_of_three (is_space c) (c == b'=') (c == b'#') (all_chars-parts is_name_char c s h).0

trim_end-name : (s : Text) → all_chars is_name_char s ≡ true → trim_end s ≡ s
unfolding trim_end
trim_end-name [] h = refl
trim_end-name (c ∷ []) h = rw (name-no_space c [] h, trim_end) refl
trim_end-name (c ∷ d ∷ s) h =
    rw (trim_end, trim_end-name (d ∷ s) (all_chars-parts is_name_char c (d ∷ s) h).1) refl

trim-name : (s : Text) → IsName s → trim s ≡ s
unfolding trim
trim-name [] h = elim h [ ]
trim-name (c ∷ s) h = rw (trim_end-name (c ∷ s) h) (trim_start-keeps c s (name-no_space c s h))

-- Trimming keeps a text that begins and ends with other characters.
trim-keeps :
    (c : ℕ) (s : Text) (d : ℕ)
    → is_space c ≡ false
    → is_space d ≡ false
    → trim (c ∷ (s ++ d ∷ [])) ≡ c ∷ (s ++ d ∷ [])
unfolding trim
trim-keeps c s d h k = rw (trim_end-keeps (c ∷ s) d k) (trim_start-keeps c (s ++ d ∷ []) h)

line_of-ends :
    (c : ℕ) (s v : Text)
    → line_of (c ∷ s, v) ≡ c ∷ ((s ++ b'=' ∷ double_quote ∷ v) ++ double_quote ∷ [])
line_of-ends c s v =
    ap (λ t. c ∷ t) (sym (append_assoc s (b'=' ∷ double_quote ∷ v) (double_quote ∷ [])))

parse_line_steps :
    (line t : Text) (c : ℕ) (before rest : Text)
    → trim line ≡ t
    → first_is b'#' t ≡ false
    → cut_at b'=' t ≡ some (c ∷ before, rest)
    → parse_line line ≡ some (trim (c ∷ before), unquote (trim rest))
unfolding parse_line
parse_line_steps line t c before rest trimmed plain cut = rw (parse_line, trimmed, plain, cut) refl

last_of_three : (a b d : Bool) → (not a && not b && not d) ≡ true → d ≡ false
last_of_three a b d h = ground arith

no_comment : (c : ℕ) (s : Text) → IsName (c ∷ s) → (c == b'#') ≡ false
no_comment c s h =
    last_of_three (is_space c) (c == b'=') (c == b'#') (all_chars-parts is_name_char c s h).0

pub parse_line-line_of : (key v : Text) → IsName key → parse_line (line_of (key, v)) ≡ some (key, v)
parse_line-line_of [] v h = elim h [ ]
parse_line-line_of (c ∷ s) v h =
    let whole : trim (line_of (c ∷ s, v)) ≡ line_of (c ∷ s, v) =
      ap trim (line_of-ends c s v)
      ∙ trim-keeps c (s ++ b'=' ∷ double_quote ∷ v) double_quote (name-no_space c s h) refl
      ∙ sym (line_of-ends c s v) in
    let cut =
      cut_at-append b'=' (c ∷ s) (double_quote ∷ (v ++ double_quote ∷ []))
        (name-no_equals (c ∷ s) h) in
    parse_line_steps (line_of (c ∷ s, v)) (line_of (c ∷ s, v)) c s
      (double_quote ∷ (v ++ double_quote ∷ [])) whole (no_comment c s h) cut
    ∙ ap₂ (λ k u. some (k, u)) (trim-name (c ∷ s) h)
        (ap unquote (trim-keeps double_quote v double_quote refl refl) ∙ unquote-quoted v)
