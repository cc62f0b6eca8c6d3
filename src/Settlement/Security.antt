-- ===== src/Settlement/Security.antt =====
-- layer5/settlement/src/security/apiSecurity.ts. The digest of a text is made by a library:
-- a parameter, `sha256`.
pub mod Laws
use creation_of_energy_token.Prelude.{
  ℕ, ◌+◌, Bool, true, false, not, ◌&&◌, ◌||◌, List, [], ◌∷◌, ◌++◌, Option, none, some, Text,
  text_Eq, ◌===◌, ◌==◌, codes, includes, filter, leb, or_else, if◌then◌else◌,
}
use creation_of_energy_token.Prelude.Strings.{Env, trim, trimmed, is_nonempty, split_on}
use creation_of_energy_token.Prelude.Dict.{Dict, get, set}

abbrev pub window_ms : ℕ
window_ms = 60_000

pub record Bucket : Type 0 where
  pub count : ℕ
  pub reset_at : ℕ

abbrev pub Buckets : Type 0
Buckets = Dict Text Bucket

-- What the gate reads of a request; `bearer` is the header authorization without its scheme.
pub record Caller : Type 0 where
  pub forwarded_for : Option Text
  pub remote_address : Option Text
  pub api_key : Option Text
  pub bearer : Option Text

abbrev pub first_part : List Text → Text
first_part [] = []
first_part (part ∷ parts) = part

unfoldable pub client_ip : Caller → Text
unfolding split_on trim
client_ip caller =
    let direct = or_else caller.remote_address (codes "unknown") in
    elim caller.forwarded_for [
      | none ↦ direct
      | some fwd ↦ if is_nonempty fwd then trim (first_part (split_on b',' fwd)) else direct
    ]

-- The bucket that a call at the time `now` counts in.
abbrev pub current_bucket : ℕ → Option Bucket → Bucket
current_bucket now none = record { count = 0; reset_at = now + window_ms }
current_bucket now (some b) =
    if leb b.reset_at now then record { count = 0; reset_at = now + window_ms } else b

unfoldable pub check_rate_limit : Text → ℕ → ℕ → Buckets → Bool × Buckets
unfolding get set
check_rate_limit ip limit now buckets =
    let b = current_bucket now (get ip buckets) in
    (leb (b.count + 1) limit, set ip (record b { count = b.count + 1 }) buckets)

abbrev pub default_origins : List Text
default_origins =
    codes "http://localhost:5173"
    ∷ codes "http://127.0.0.1:5173"
    ∷ codes "https://localhost:5173"
    ∷ codes "https://127.0.0.1:5173"
    ∷ []

abbrev pub trim_all : List Text → List Text
trim_all [] = []
trim_all (s ∷ ss) = trim s ∷ trim_all ss

unfoldable pub cors_origins : Env → List Text
unfolding trimmed split_on trim
cors_origins env = elim (trimmed (env (codes "SETTLEMENT_CORS_ORIGINS"))) [
  | none ↦ default_origins
  | some raw ↦ filter is_nonempty (trim_all (split_on b',' raw))
]

-- The origin that the answer allows, where there is one.
unfoldable pub allowed_origin : Env → Option Text → Option Text
unfolding cors_origins
allowed_origin env none = none
allowed_origin env (some origin) =
    if is_nonempty origin && includes (cors_origins env) origin then some origin else none

unfoldable pub is_public_read_allowed : Env → Bool
is_public_read_allowed env = elim (env (codes "SETTLEMENT_API_PUBLIC_READ")) [
  | none ↦ false
  | some v ↦ v === codes "true"
]

unfoldable pub is_api_key_required : Env → Bool
unfolding trimmed
is_api_key_required env = elim (trimmed (env (codes "SETTLEMENT_API_KEY"))) [
  | none ↦ false
  | some key ↦ true
]

abbrev pub nonempty_or : Option Text → Text → Text
nonempty_or none d = d
nonempty_or (some v) d = if is_nonempty v then v else d

-- The key that a caller gives.
abbrev pub provided_key : Caller → Text
provided_key caller = nonempty_or caller.api_key (nonempty_or caller.bearer [])

-- `safeEqual` compares digests.
unfoldable pub safe_equal : (Text → List ℕ) → Text → Text → Bool
safe_equal sha256 a b = sha256 a === sha256 b

unfoldable pub assert_api_key : (Text → List ℕ) → Env → Caller → Bool
unfolding trimmed safe_equal
assert_api_key sha256 env caller = elim (trimmed (env (codes "SETTLEMENT_API_KEY"))) [
  | none ↦ true
  | some expected ↦
      let provided = provided_key caller in
      is_nonempty provided && safe_equal sha256 provided expected
]

-- The limits of reads and writes are read from the environment once, when the module loads.
pub record Limits : Type 0 where
  pub read_limit : ℕ
  pub write_limit : ℕ

unfoldable pub assert_rate_limit : Limits → Caller → Bool → ℕ → Buckets → Bool × Buckets
unfolding client_ip check_rate_limit
assert_rate_limit limits caller write_route now buckets =
    check_rate_limit (client_ip caller)
      (if write_route then limits.write_limit else limits.read_limit) now buckets
