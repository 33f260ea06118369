-- ===== src/Api/Query/RoundTrip.antt =====
-- A query that is written by the rules of forms is read back.
use lagoon_email.Prelude.{
  text_eq_refl, ℕ, ◌/◌, ◌%◌, ◌<◌, ◌≡◌, refl, ap, ◌∙◌, Text, Bool, true, not, ◌&&◌, ◌||◌, some, List,
  [], ◌∷◌, ◌++◌, ◌==◌, all, All, map, filter, split_once, arith, Bool-cases, inl, inr,
}
use lagoon_email.Api.Query.{
  is_utf8, decode_component, split, name_value, pair_of, is_filled, parse, get,
}
use lagoon_email.Api.Query.Form.{
  hex_upper, is_safe, form_byte, form_text, IsByte, decode_component-form_text,
}

-- neither the character between two pairs nor the one inside a pair
abbrev is_inner : ℕ → Bool
is_inner c = not (c == b'&' || c == b'=')

hex_inner : (n : ℕ) → n < 16 → is_inner (hex_upper n) ≡ true
hex_inner n h = ground arith

form_byte_inner : (c : ℕ) → c < 256 → all is_inner (form_byte c) ≡ true
unfolding all
form_byte_inner c h = elim (Bool-cases (is_safe c)) [
  | inl safe ↦ rw safe (ground arith)
  | inr unsafe ↦ rw unsafe (elim (Bool-cases (c == b' ')) [
    | inl blank ↦ rw blank refl
    | inr dark ↦
        rw dark (rw (hex_inner (c / 16) (omega arith), hex_inner (c % 16) (omega arith)) refl)
  ])
]

all-append : (p : ℕ → Bool) (s t : Text) → all p (s ++ t) ≡ (all p s && all p t)
unfolding all
all-append p [] t = refl
all-append p (c ∷ cs) t = ground (arith, all-append p cs t)

form_text_inner : (s : Text) → All IsByte s → all is_inner (form_text s) ≡ true
unfolding all
form_text_inner [] h = refl
form_text_inner (c ∷ cs) (h, hs) = rw (all-append, form_byte_inner c h, form_text_inner cs hs) refl

split_once-append :
    (t u : Text) → all is_inner t ≡ true → split_once b'=' (t ++ b'=' ∷ u) ≡ some (t, u)
unfolding split_once all
split_once-append [] u h = refl
split_once-append (c ∷ cs) u h = ground (arith, split_once-append cs u)

split-append :
    (t u : Text)
    → all (λ c. not (c == b'&')) t ≡ true
    → split b'&' (t ++ b'&' ∷ u) ≡ t ∷ split b'&' u
unfolding split all
split-append [] u h = refl
split-append (c ∷ cs) u h = ground (arith, split-append cs u)

split_whole : (t : Text) → all (λ c. not (c == b'&')) t ≡ true → split b'&' t ≡ t ∷ []
unfolding split all
split_whole [] h = refl
split_whole (c ∷ cs) h = ground (arith, split_whole cs)

all_inner-amp : (t : Text) → all is_inner t ≡ true → all (λ c. not (c == b'&')) t ≡ true
unfolding all
all_inner-amp [] h = refl
all_inner-amp (c ∷ cs) h = ground (arith, all_inner-amp cs)

-- bytes that are a text
abbrev pub IsText : Text → Type 0
IsText s = All IsByte s × (is_utf8 s ≡ true)

abbrev pub IsPair : Text × Text → Type 0
IsPair (name, value) = IsText name × IsText value

abbrev pub write_pair : Text × Text → Text
write_pair (name, value) = form_text name ++ b'=' ∷ form_text value

abbrev pub write_query : List (Text × Text) → Text
write_query [] = []
write_query (p ∷ []) = write_pair p
write_query (p ∷ q ∷ rest) = write_pair p ++ b'&' ∷ write_query (q ∷ rest)

pair_of-write_pair : (p : Text × Text) → IsPair p → pair_of (write_pair p) ≡ p
unfolding pair_of
pair_of-write_pair (name, value) ((n, nv), (v, vv)) =
    ap (name_value (write_pair (name, value)))
      (split_once-append (form_text name) (form_text value) (form_text_inner name n))
    ∙ ap (λ x. (x, decode_component (form_text value))) (decode_component-form_text name n nv)
    ∙ ap (λ x. (name, x)) (decode_component-form_text value v vv)

pair_amp : (p : Text × Text) → IsPair p → all (λ c. not (c == b'&')) (write_pair p) ≡ true
unfolding all
pair_amp (name, value) ((n, nv), (v, vv)) =
    rw
      (
        all-append,
        all_inner-amp (form_text name) (form_text_inner name n),
        all_inner-amp (form_text value) (form_text_inner value v),
      )
      refl

filled : (t u : Text) (c : ℕ) → is_filled (t ++ c ∷ u) ≡ true
filled [] u c = refl
filled (d ∷ ds) u c = refl

keep_pair :
    (p : Text × Text) (rest : List Text)
    → map pair_of (filter is_filled (write_pair p ∷ rest))
      ≡ pair_of (write_pair p) ∷ map pair_of (filter is_filled rest)
unfolding filter
keep_pair (name, value) rest = rw (filled (form_text name) (form_text value) b'=') refl

parse-write_query :
    (pairs : List (Text × Text)) → All IsPair pairs → parse (some (write_query pairs)) ≡ pairs
unfolding parse
parse-write_query [] h = unfold split filter in refl
parse-write_query (p ∷ []) (h, hs) =
    ap (λ l. map pair_of (filter is_filled l)) (split_whole (write_pair p) (pair_amp p h))
    ∙ keep_pair p []
    ∙ ap (λ x. x ∷ map pair_of (filter is_filled [])) (pair_of-write_pair p h)
    ∙ unfold filter in refl
parse-write_query (p ∷ q ∷ rest) (h, hs) =
    ap (λ l. map pair_of (filter is_filled l))
      (split-append (write_pair p) (write_query (q ∷ rest)) (pair_amp p h))
    ∙ keep_pair p (split b'&' (write_query (q ∷ rest)))
    ∙ ap (λ x. x ∷ parse (some (write_query (q ∷ rest)))) (pair_of-write_pair p h)
    ∙ ap (λ l. p ∷ l) (parse-write_query (q ∷ rest) hs)

get_last :
    (pairs : List (Text × Text)) (name value : Text)
    → get (pairs ++ (name, value) ∷ []) name ≡ some value
unfolding get
get_last [] name value = rw (text_eq_refl name) refl
get_last ((k, v) ∷ pairs) name value = rw (get_last pairs name value) refl

-- A query written by the rules of forms is read back pair by pair, whatever bytes its names and values
-- hold, as long as they are UTF-8; and a name that is given more than once has its last value.
pub get-parse :
    (pairs : List (Text × Text)) (name value : Text)
    → All IsPair (pairs ++ (name, value) ∷ [])
    → (parse (some (write_query (pairs ++ (name, value) ∷ []))) ≡ pairs ++ (name, value) ∷ [])
      × (get (parse (some (write_query (pairs ++ (name, value) ∷ [])))) name ≡ some value)
get-parse pairs name value h =
    let back = parse-write_query (pairs ++ (name, value) ∷ []) h in
    (back, ap (λ l. get l name) back ∙ get_last pairs name value)
