-- ===== src/Tests/Api.antt =====
-- An id on the wire, and requests at the guard.
use lagoon_email.Prelude.{
  ℕ, codes, ◌≡◌, refl, ◌⊎◌, ◌↔◌, some, none, List, [], ◌∷◌, text_eq, text_eq_iff, length, arith,
}
use lagoon_email.Api.Uuid.{parse_strict, to_wire_string}
use lagoon_email.Api.Uuid.RoundTrip.{parse_strict-to_wire_string}
use lagoon_email.Api.Guard.{Outside, Request, AppState, enforce, forwarded, ungated_path}
use lagoon_email.Api.Guard.Access.{AllowedHost, Presents, enforce_forwards}
use lagoon_email.Api.Query.{is_utf8, parse, get}
use lagoon_email.Api.Query.RoundTrip.{get-parse}

abbrev id : List ℕ
id = 17 ∷ 255 ∷ 0 ∷ 16 ∷ 1 ∷ 2 ∷ 64 ∷ 17 ∷ 128 ∷ 17 ∷ 170 ∷ 171 ∷ 172 ∷ 173 ∷ 174 ∷ 175 ∷ []

parse_strict-to_wire_string_example :
    (length (to_wire_string id) ≡ 36) × (parse_strict (to_wire_string id) ≡ some id)
parse_strict-to_wire_string_example = parse_strict-to_wire_string id refl (ground arith)

abbrev outside : Outside
outside = record { to_lowercase = λ t. t; digest = λ t. t; ct_eq = text_eq }

abbrev state : AppState
state = record { allowed_hosts = codes "localhost" ∷ []; api_token = some (codes "abc") }

abbrev request : Request
request = record {
  host = some (codes "localhost");
  path = codes "/api";
  authorization = some (codes "Bearer abc");
}

enforce_forwards_example : (enforce outside state request ≡ forwarded) ↔ (
    AllowedHost outside (codes "localhost" ∷ []) (some (codes "localhost"))
    × ((codes "/api" ≡ ungated_path)
        ⊎ Presents outside (some (codes "abc")) (some (codes "Bearer abc"))))
enforce_forwards_example = enforce_forwards outside state request text_eq_iff

abbrev stranger : Request
stranger = record request { authorization = none }

get-parse_example :
    (parse (some (codes "a=1&q=a%40b+%25&a=2"))
      ≡ (codes "a", codes "1") ∷ (codes "q", codes "a@b %") ∷ (codes "a", codes "2") ∷ [])
    × (get (parse (some (codes "a=1&q=a%40b+%25&a=2"))) (codes "a") ≡ some (codes "2"))
unfolding is_utf8
get-parse_example =
    get-parse ((codes "a", codes "1") ∷ (codes "q", codes "a@b %") ∷ []) (codes "a") (codes "2")
      (ground arith)
