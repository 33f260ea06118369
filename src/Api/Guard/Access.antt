-- ===== src/Api/Guard/Access.antt =====
-- Which requests pass the guard.
use lagoon_email.Prelude.{
  ℕ, ◌≡◌, refl, sym, ap, ◌∙◌, ◌↔◌, ◌⊎◌, inl, inr, Text, text_eq, text_eq_iff, true, Option, none,
  some, List, [], ◌∷◌, arith, contains,
}
use lagoon_email.Api.Guard.{
  Outside, Request, AppState, api_unauthorized, forwarded, normalize_host, ungated_path,
  host_allowed, timing_safe_eq, bearer, authorized, enforce,
}

-- The server has a token that is not empty, and the request has an `Authorization` header with the
-- digest of the header that names the token.
abbrev pub Presents : Outside → Option Text → Option Text → Type 0
Presents o server presented =
    (c : ℕ) × (token header : Text) × (server ≡ some (c ∷ token))
    × (presented ≡ some header)
    × (o.digest header ≡ o.digest (bearer (c ∷ token)))

abbrev pub AllowedHost : Outside → List Text → Option Text → Type 0
AllowedHost o hosts host =
    (name : Text) × (host ≡ some name) × (contains hosts (normalize_host o name) ≡ true)

-- `ct_eq` of crate `subtle` tells whether two byte strings are equal.
abbrev pub Compares : Outside → Type 0
Compares o = (s t : List ℕ) → (o.ct_eq s t ≡ true) ↔ (s ≡ t)

some_same : (s t : Text) → ◌≡◌ {A = Option Text} (some s) (some t) → s ≡ t
some_same s t e = cc

authorized_iff :
    (o : Outside) (server presented : Option Text)
    → Compares o
    → (authorized o server presented ≡ true) ↔ Presents o server presented
unfolding timing_safe_eq
authorized_iff o none presented compares = (λ e. cc, λ (c, token, header, e, f, g). cc)
authorized_iff o (some []) presented compares = (λ e. cc, λ (c, token, header, e, f, g). cc)
authorized_iff o (some (c ∷ token)) none compares = (λ e. cc, λ (d, t, header, e, f, g). cc)
authorized_iff o (some (c ∷ token)) (some presented) compares = (
  λ e. (c, token, presented, refl, refl, (compares _ _).0 e),
  λ (d, t, header, e, f, g).
      (compares _ _).1
        (ap o.digest (some_same _ _ f) ∙ g ∙ ap (λ u. o.digest (bearer u)) (sym (some_same _ _ e))),
)

host_allowed_iff :
    (o : Outside) (hosts : List Text) (host : Option Text)
    → (host_allowed o hosts host ≡ true) ↔ AllowedHost o hosts host
host_allowed_iff o hosts none = (λ e. cc, λ (name, e, f). cc)
host_allowed_iff o hosts (some host) = (
  λ e. (host, refl, e),
  λ (name, e, f). ap (λ n. contains hosts (normalize_host o n)) (some_same _ _ e) ∙ f,
)

enforce_cases :
    (o : Outside) (state : AppState) (request : Request)
    → (enforce o state request ≡ forwarded) ↔ (
        (host_allowed o state.allowed_hosts request.host ≡ true)
        × ((text_eq request.path ungated_path ≡ true)
            ⊎ (authorized o state.api_token request.authorization ≡ true)))
unfolding enforce
enforce_cases o state request = ground arith

-- A request passes the guard exactly if its `Host` is allowed and either its path is `/healthz`, letter
-- for letter, or the server has a token that is not empty and the digest of the request's `Authorization`
-- is that of the token's, where the comparison of digests tells whether they are equal.
pub enforce_forwards :
    (o : Outside) (state : AppState) (request : Request)
    → Compares o
    → (enforce o state request ≡ forwarded) ↔ (
        AllowedHost o state.allowed_hosts request.host
        × ((request.path ≡ ungated_path) ⊎ Presents o state.api_token request.authorization))
enforce_forwards o state request compares =
    let (to, from) = enforce_cases o state request in
    let (host_to, host_from) = host_allowed_iff o state.allowed_hosts request.host in
    let (path_to, path_from) = text_eq_iff request.path ungated_path in
    let (token_to, token_from) = authorized_iff o state.api_token request.authorization compares in
    (
      λ e.
          let (h, rest) = to e in
          (host_to h, elim rest [ inl p ↦ inl (path_to p) | inr t ↦ inr (token_to t) ]),
      λ (h, rest).
          from (host_from h, elim rest [ inl p ↦ inl (path_from p) | inr t ↦ inr (token_from t) ]),
    )

enforce_refused :
    (o : Outside) (state : AppState) (request : Request)
    → enforce o state request ≡ api_unauthorized
    → host_allowed o state.allowed_hosts request.host ≡ true
unfolding enforce
enforce_refused o state request e = ground arith

-- The `Host` is looked at first: only a request with an allowed one is ever told that its token is
-- wrong.
pub enforce-checks_host_first :
    (o : Outside) (state : AppState) (request : Request)
    → enforce o state request ≡ api_unauthorized
    → AllowedHost o state.allowed_hosts request.host
enforce-checks_host_first o state request e =
    (host_allowed_iff o state.allowed_hosts request.host).0 (enforce_refused o state request e)
