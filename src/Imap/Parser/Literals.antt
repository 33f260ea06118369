-- ===== src/Imap/Parser/Literals.antt =====
-- `literal_length` of crates/lagoon-mail/src/imap/parser.rs: the length that a line announces at its
-- end, `{N}` or `{N+}`. `usize` has 64 bits.
use lagoon_email.Prelude.{
  ℕ, ◌+◌, ◌-◌, ◌*◌, ◌^◌, ◌≤◌, ◌<◌, ◌≡◌, refl, ap, ◌∙◌, Text, Bool, true, false, not, ◌&&◌, Option,
  none, some, [], ◌∷◌, ◌++◌, append-nil, append_assoc, ◌==◌, ltb, leb, if◌then◌else◌, arith, all,
  Bool-cases, inl, inr,
}
use mathlib.Core.List.{reverse, reverse-append, reverse-reverse}

abbrev pub max_usize : ℕ
max_usize = 2 ^ 64 - 1

abbrev pub is_digit : ℕ → Bool
is_digit c = leb b'0' c && leb c b'9'

-- `digits.parse::<usize>()` of digits: `none` where the number does not fit
unfoldable pub parse_usize : Text → ℕ → Option ℕ
parse_usize [] n = some n
parse_usize (c ∷ cs) n =
    let next = n * 10 + (c - b'0') in
    elim (ltb max_usize next) [ true ↦ none | false ↦ parse_usize cs next ]

unfoldable pub digits_length : Text → Option ℕ
digits_length [] = none
digits_length (c ∷ cs) = if all is_digit (c ∷ cs) then parse_usize (c ∷ cs) 0 else none

-- `line[open + 1..]` for `open = line.rfind('{')`, on the reversed line, with the text between kept
unfoldable pub back_to_open : Text → Text → Option Text
back_to_open [] between = none
back_to_open (c ∷ cs) between =
    let rest = back_to_open cs (c ∷ between) in if c == b'{' then some between else rest

-- `digits.strip_suffix('+')`
unfoldable pub strip_plus : Text → Text
strip_plus [] = []
strip_plus (c ∷ cs) = if c == b'+' then cs else c ∷ cs

unfoldable pub ends_with_brace : Text → Option Text
ends_with_brace [] = none
ends_with_brace (c ∷ cs) = if c == b'}' then some cs else none

unfoldable pub literal_length : Text → Option ℕ
literal_length line = elim (ends_with_brace (reverse line)) [
  | none ↦ none
  | some before ↦ elim (back_to_open before []) [
    | none ↦ none
    | some between ↦ digits_length (reverse (strip_plus (reverse between)))
  ]
]

-- the number that digits spell behind `n`
abbrev pub value : Text → ℕ → ℕ
value [] n = n
value (c ∷ cs) n = value cs (n * 10 + (c - b'0'))

le-value : (s : Text) (n : ℕ) → n ≤ value s n
le-value [] n = omega arith
le-value (c ∷ cs) n = omega (arith, le-value cs (n * 10 + (c - b'0')))

parse_fits : (s : Text) (n : ℕ) → value s n ≤ max_usize → parse_usize s n ≡ some (value s n)
unfolding parse_usize
parse_fits [] n h = refl
parse_fits (c ∷ cs) n h =
    let next = n * 10 + (c - b'0') in ground (arith, le-value cs next, parse_fits cs next h)

parse_overflows :
    (s : Text) (n : ℕ) → n ≤ max_usize → max_usize < value s n → parse_usize s n ≡ none
unfolding parse_usize
parse_overflows [] n h k = absurd (omega arith)
parse_overflows (c ∷ cs) n h k =
    let next = n * 10 + (c - b'0') in ground (arith, parse_overflows cs next)

parse_or_none :
    (s : Text) → parse_usize s 0 ≡ (if ltb max_usize (value s 0) then none else some (value s 0))
parse_or_none s = elim (Bool-cases (ltb max_usize (value s 0))) [
  | inl large ↦ rw large (parse_overflows s 0 (omega arith) (ground arith))
  | inr small ↦ rw small (parse_fits s 0 (ground arith))
]

digits_value :
    (c : ℕ) (cs : Text)
    → all is_digit (c ∷ cs) ≡ true
    → digits_length (c ∷ cs)
      ≡ (if ltb max_usize (value (c ∷ cs) 0) then none else some (value (c ∷ cs) 0))
unfolding digits_length
digits_value c cs h = rw h (parse_or_none (c ∷ cs))

all-append : (p : ℕ → Bool) (s t : Text) → all p (s ++ t) ≡ (all p s && all p t)
unfolding all
all-append p [] t = refl
all-append p (c ∷ cs) t = ground (arith, all-append p cs t)

all-reverse : (p : ℕ → Bool) (s : Text) → all p (reverse s) ≡ all p s
unfolding all
all-reverse p [] = refl
all-reverse p (c ∷ cs) =
    ap (all p) (reverse-append (c ∷ []) cs)
    ∙ all-append p (reverse cs) (c ∷ [])
    ∙ ground (arith, all-reverse p cs)

reverse_ends :
    (before middle : Text) (a b : ℕ)
    → reverse (before ++ a ∷ (middle ++ b ∷ [])) ≡ b ∷ (reverse middle ++ a ∷ reverse before)
reverse_ends before middle a b =
    reverse-append before (a ∷ (middle ++ b ∷ []))
    ∙ ap (λ t. t ++ reverse before) (reverse-append (a ∷ []) (middle ++ b ∷ []))
    ∙ ap (λ t. (t ++ a ∷ []) ++ reverse before) (reverse-append middle (b ∷ []))
    ∙ append_assoc (b ∷ reverse middle) (a ∷ []) (reverse before)

abbrev not_open : ℕ → Bool
not_open c = not (c == b'{')

back_to_open-append :
    (s t between : Text)
    → all not_open s ≡ true
    → back_to_open (s ++ b'{' ∷ t) between ≡ some (reverse s ++ between)
unfolding back_to_open all
back_to_open-append [] t between h = refl
back_to_open-append (c ∷ cs) t between h =
    let apart : reverse (c ∷ cs) ++ between ≡ reverse cs ++ c ∷ between =
      ap (λ u. u ++ between) (reverse-append (c ∷ []) cs)
      ∙ append_assoc (reverse cs) (c ∷ []) between in
    ground (arith, back_to_open-append cs t (c ∷ between), apart)

literal_between :
    (before middle : Text)
    → all not_open middle ≡ true
    → literal_length (before ++ b'{' ∷ (middle ++ b'}' ∷ []))
      ≡ digits_length (reverse (strip_plus (reverse middle)))
unfolding literal_length ends_with_brace
literal_between before middle h =
    rw
      (
        literal_length,
        reverse_ends before middle b'{' b'}',
        back_to_open-append (reverse middle) (reverse before) [] (all-reverse not_open middle ∙ h),
        reverse-reverse middle,
        append-nil middle,
      )
      refl

digits_not_open : (s : Text) → all is_digit s ≡ true → all not_open s ≡ true
unfolding all
digits_not_open [] h = refl
digits_not_open (c ∷ cs) h = ground (arith, digits_not_open cs)

strip_plus_digits : (s : Text) → all is_digit s ≡ true → strip_plus s ≡ s
unfolding strip_plus all
strip_plus_digits [] h = refl
strip_plus_digits (c ∷ cs) h = ground arith

-- what may stand between the digits and the closing brace: nothing, or the `+` of a literal that is not
-- waited for
abbrev pub plus_sign : Bool → Text
plus_sign true = b'+' ∷ []
plus_sign false = []

strip_sign :
    (ds : Text) (plus : Bool)
    → all is_digit ds ≡ true
    → reverse (strip_plus (reverse (ds ++ plus_sign plus))) ≡ ds
strip_sign ds true h =
    ap (λ t. reverse (strip_plus t)) (reverse-append ds (b'+' ∷ []))
    ∙ (unfold strip_plus in reverse-reverse ds)
strip_sign ds false h =
    ap (λ t. reverse (strip_plus (reverse t))) (append-nil ds)
    ∙ ap reverse (strip_plus_digits (reverse ds) (all-reverse is_digit ds ∙ h))
    ∙ reverse-reverse ds

sign_not_open :
    (ds : Text) (plus : Bool) → all is_digit ds ≡ true → all not_open (ds ++ plus_sign plus) ≡ true
unfolding all
sign_not_open ds true h = rw (all-append, digits_not_open ds h) refl
sign_not_open ds false h = rw (all-append, digits_not_open ds h) refl

-- A line that ends in `{N}` or `{N+}` announces a literal of N bytes, whatever stands before it, braces
-- included, and none when N does not fit in 64 bits.
pub literal_length-announced :
    (before : Text) (c : ℕ) (cs : Text) (plus : Bool)
    → all is_digit (c ∷ cs) ≡ true
    → literal_length (before ++ b'{' ∷ (((c ∷ cs) ++ plus_sign plus) ++ b'}' ∷ []))
      ≡ (if ltb max_usize (value (c ∷ cs) 0) then none else some (value (c ∷ cs) 0))
literal_length-announced before c cs plus h =
    literal_between before ((c ∷ cs) ++ plus_sign plus) (sign_not_open (c ∷ cs) plus h)
    ∙ ap digits_length (strip_sign (c ∷ cs) plus h)
    ∙ digits_value c cs h
