-- ===== src/Api/Send/Recipients.antt =====
-- The recipients of crates/lagoon-api/src/http/routes_send.rs: `split_addresses`, `validate_address` and
-- `addresses_from_string`.
use lagoon_email.Prelude.{
  ℕ, suc, zero, ◌+◌, ◌-◌, Text, codes, text_eq, Bool, true, false, not, ◌&&◌, ◌||◌, Option, none,
  some, List, [], ◌∷◌, ◌++◌, Result, ok, err, ◌==◌, ltb, if◌then◌else◌, any, is_whitespace, trim,
  All, ◌≡◌, refl, inl, inr, Bool-cases,
}
use lagoon_email.Smtp.Address.{is_valid_envelope_address, unsafe_in_path, is_control}
use lagoon_email.Api.Send.{Response, refused}

-- the variables of the loop of `split_addresses`; a depth is never below zero
pub record Splitter : Type 0 where
  pub pieces : List Text
  pub current : Text
  pub in_quotes : Bool
  pub angle_depth : ℕ

abbrev pub keep : ℕ → Splitter → Splitter
keep c s = record s { current = s.current ++ (c ∷ []) }

unfoldable pub split_char : ℕ → Splitter → Splitter
split_char c s =
    if c == b'"'
    then record (keep c s) { in_quotes = not s.in_quotes }
    else if c == b'<' && not s.in_quotes
    then record (keep c s) { angle_depth = s.angle_depth + 1 }
    else if c == b'>' && not s.in_quotes
    then record (keep c s) { angle_depth = s.angle_depth - 1 }
    else if c == b',' && (not s.in_quotes && s.angle_depth == 0)
    then record s { pieces = s.pieces ++ (s.current ∷ []); current = [] }
    else keep c s

unfoldable pub split_chars : Text → Splitter → Splitter
split_chars [] s = s
split_chars (c ∷ cs) s = split_chars cs (split_char c s)

unfoldable pub trimmed : List Text → List Text
trimmed [] = []
trimmed (p ∷ ps) = let rest = trimmed ps in if text_eq (trim p) [] then rest else trim p ∷ rest

abbrev pub all_pieces : Splitter → List Text
all_pieces s = s.pieces ++ (s.current ∷ [])

unfoldable pub split_addresses : Text → List Text
split_addresses raw = trimmed (
    all_pieces
      (split_chars raw (record { pieces = []; current = []; in_quotes = false; angle_depth = 0 })))

-- `rfind`, from an index on and with the best index so far
unfoldable pub rfind : ℕ → Text → ℕ → Option ℕ → Option ℕ
rfind c [] at best = best
rfind c (d ∷ ds) at best = rfind c ds (at + 1) (if d == c then some at else best)

unfoldable pub drop : ℕ → Text → Text
drop zero t = t
drop (suc n) [] = []
drop (suc n) (c ∷ cs) = drop n cs

unfoldable pub take : ℕ → Text → Text
take zero t = []
take (suc n) [] = []
take (suc n) (c ∷ cs) = c ∷ take n cs

abbrev pub between : Text → Option ℕ → Option ℕ → Text
between piece (some first) (some last) =
    if ltb first last then trim (take (last - first - 1) (drop (first + 1) piece)) else trim piece
between piece _ _ = trim piece

unfoldable pub candidate : Text → Text
candidate piece = between piece (rfind b'<' piece 0 none) (rfind b'>' piece 0 none)

abbrev pub has_at : Text → Bool
has_at t = any (λ c. c == b'@') t

abbrev pub breaks_path : ℕ → Bool
breaks_path c = is_control c || (is_whitespace c || (c == b'<' || c == b'>'))

abbrev pub is_valid : Text → Bool
is_valid t = not (text_eq t []) && (has_at t && not (any breaks_path t))

abbrev pub malformed : Response
malformed = refused 400 (codes "malformed-recipient")

unfoldable pub validate_address : Text → Result Response Text
validate_address piece = if is_valid (candidate piece) then ok (candidate piece) else err malformed

abbrev pub with_first :
    Result Response Text → Result Response (List Text) → Result Response (List Text)
with_first (err r) rest = err r
with_first (ok a) (err r) = err r
with_first (ok a) (ok as') = ok (a ∷ as')

unfoldable pub validate_all : List Text → Result Response (List Text)
validate_all [] = ok []
validate_all (p ∷ ps) = with_first (validate_address p) (validate_all ps)

unfoldable pub addresses_from_string : Text → Result Response (List Text)
addresses_from_string raw = validate_all (split_addresses raw)

abbrev pub Deliverable : Text → Type 0
Deliverable a = is_valid_envelope_address a ≡ true

abbrev pub AllDeliverable : Result Response (List Text) → Type 0
AllDeliverable (err r) = r ≡ malformed
AllDeliverable (ok addresses) = All Deliverable addresses

is_valid-Deliverable : (t : Text) → is_valid t ≡ true → Deliverable t
unfolding is_valid_envelope_address text_eq unsafe_in_path
is_valid-Deliverable [] h = h
is_valid-Deliverable (c ∷ cs) h = h

abbrev OneDeliverable : Result Response Text → Type 0
OneDeliverable (err r) = r ≡ malformed
OneDeliverable (ok a) = Deliverable a

validate_address-OneDeliverable : (piece : Text) → OneDeliverable (validate_address piece)
unfolding validate_address
validate_address-OneDeliverable piece = decided (candidate piece)
  where
    decided : (t : Text) → OneDeliverable (if is_valid t then ok t else err malformed)
    decided t = elim (Bool-cases (is_valid t)) [
      | inl e ↦ rw e (is_valid-Deliverable t e)
      | inr e ↦ rw e refl
    ]

validate_all-AllDeliverable : (ps : List Text) → AllDeliverable (validate_all ps)
unfolding validate_all
validate_all-AllDeliverable [] = tt
validate_all-AllDeliverable (p ∷ ps) =
    both (validate_address p) (validate_all ps) (validate_address-OneDeliverable p)
      (validate_all-AllDeliverable ps)
  where
    both :
        (r : Result Response Text) (rest : Result Response (List Text))
        → OneDeliverable r
        → AllDeliverable rest
        → AllDeliverable (with_first r rest)
    both (err f) rest h k = h
    both (ok a) (err f) h k = k
    both (ok a) (ok as') h k = (h, k)

-- The recipients of a request are all addresses that the SMTP session takes, or the request is refused as
-- malformed: no recipient is dropped by the session's own check of an address.
pub addresses_from_string-AllDeliverable : (raw : Text) → AllDeliverable (addresses_from_string raw)
unfolding addresses_from_string
addresses_from_string-AllDeliverable raw = validate_all-AllDeliverable (split_addresses raw)
