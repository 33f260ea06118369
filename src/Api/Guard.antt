-- ===== src/Api/Guard.antt =====
-- `enforce` of crates/lagoon-api/src/http/guard.rs, with `normalize_host` and `allowed_host_names` of
-- config.rs. The digest, the comparison of digests and Unicode lower case are parameters.
pub mod Access
use lagoon_email.Prelude.{
  ℕ, suc, ◌+◌, Text, codes, text_eq, Bool, true, false, not, ◌&&◌, ◌||◌, Option, none, some, List,
  [], ◌∷◌, ◌++◌, length, filter, ◌==◌, if◌then◌else◌, contains, trim, split_once,
}

-- `to_lowercase`, `Sha256::digest` and `ct_eq`
pub record Outside : Type 0 where
  pub to_lowercase : Text → Text
  pub digest : List ℕ → List ℕ
  pub ct_eq : List ℕ → List ℕ → Bool

-- A header is `none` where it is absent or not text.
pub record Request : Type 0 where
  pub host : Option Text
  pub path : Text
  pub authorization : Option Text

pub record AppState : Type 0 where
  pub allowed_hosts : List Text
  pub api_token : Option Text

pub data Outcome : Type 0 where
  forbidden_host api_unauthorized forwarded : Outcome

abbrev pub inside_brackets : Text → Option (Text × Text) → Text
inside_brackets value none = value
inside_brackets value (some (inside, rest)) = inside

abbrev pub before_port : Text → Option (Text × Text) → Text
before_port value none = value
before_port value (some (host, port)) = host

-- A bare IPv6 literal has several colons, so that only a single one is followed by a port.
abbrev pub without_port : Text → Text
without_port value =
    if length (filter (λ c. c == b':') value) == 1
    then before_port value (split_once b':' value)
    else value

-- `strip_prefix('[')` and what follows
abbrev pub strip_host : Text → Text
strip_host [] = without_port []
strip_host (c ∷ rest) =
    if c == b'[' then inside_brackets (c ∷ rest) (split_once b']' rest) else without_port (c ∷ rest)

unfoldable pub normalize_host : Outside → Text → Text
normalize_host o raw = strip_host (o.to_lowercase (trim raw))

abbrev pub loopback_hosts : List Text
loopback_hosts = codes "127.0.0.1" ∷ codes "localhost" ∷ codes "::1" ∷ []

abbrev pub wildcards : List Text
wildcards = codes "0.0.0.0" ∷ codes "::" ∷ codes "*" ∷ [] ∷ []

unfoldable pub is_wildcard_bind : Outside → Text → Bool
is_wildcard_bind o host = contains wildcards (o.to_lowercase (trim host))

abbrev pub is_some : Option Text → Bool
is_some none = false
is_some (some t) = true

unfoldable pub allowed_host_names : Outside → Text → Option Text → List Text
allowed_host_names o host api_token =
    let bound = normalize_host o host in
    if is_some api_token && (not (is_wildcard_bind o host) && not (text_eq bound []))
    then bound ∷ loopback_hosts
    else loopback_hosts

abbrev pub ungated_path : Text
ungated_path = codes "/healthz"

abbrev pub host_allowed : Outside → List Text → Option Text → Bool
host_allowed o hosts none = false
host_allowed o hosts (some host) = contains hosts (normalize_host o host)

unfoldable pub timing_safe_eq : Outside → Option Text → Text → Bool
timing_safe_eq o none expected = false
timing_safe_eq o (some presented) expected = o.ct_eq (o.digest presented) (o.digest expected)

abbrev pub bearer : Text → Text
bearer token = codes "Bearer " ++ token

-- The token is there and not empty, and the request presents it.
abbrev pub authorized : Outside → Option Text → Option Text → Bool
authorized o none presented = false
authorized o (some []) presented = false
authorized o (some (c ∷ token)) presented = timing_safe_eq o presented (bearer (c ∷ token))

unfoldable pub enforce : Outside → AppState → Request → Outcome
enforce o state request =
    if host_allowed o state.allowed_hosts request.host
    then (if text_eq request.path ungated_path
        then forwarded
        else if authorized o state.api_token request.authorization
        then forwarded
        else api_unauthorized)
    else forbidden_host
