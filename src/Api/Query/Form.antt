-- ===== src/Api/Query/Form.antt =====
-- How a form writes a text, and that `decode_component` of crates/lagoon-api/src/http/query.rs reads it.
use lagoon_email.Prelude.{
  ℕ, ◌+◌, ◌-◌, ◌/◌, ◌%◌, ◌<◌, ◌≡◌, refl, ap, sym, ◌∙◌, Text, Bool, true, false, ◌&&◌, ◌||◌, Option,
  some, [], ◌∷◌, ◌++◌, ◌==◌, leb, ltb, if◌then◌else◌, any, All, arith, Bool-cases, inl, inr,
}
use lagoon_email.Api.Uuid.{hex_value}
use lagoon_email.Api.Query.{is_utf8, cons_some, plain_byte, decode, is_special, decode_component}

-- an upper case hex digit
abbrev pub hex_upper : ℕ → ℕ
hex_upper n = if ltb n 10 then b'0' + n else b'A' + (n - 10)

-- a byte that stands for itself: a letter, a digit or one of `-._~*`
abbrev pub is_safe : ℕ → Bool
is_safe c =
    (leb b'a' c && leb c b'z')
    || ((leb b'A' c && leb c b'Z')
        || ((leb b'0' c && leb c b'9')
            || (c == b'-' || (c == b'.' || (c == b'_' || (c == b'~' || c == b'*'))))))

-- how a form writes one byte
abbrev pub form_byte : ℕ → Text
form_byte c =
    if is_safe c
    then c ∷ []
    else if c == b' '
    then b'+' ∷ []
    else b'%' ∷ hex_upper (c / 16) ∷ hex_upper (c % 16) ∷ []

abbrev pub form_text : Text → Text
form_text [] = []
form_text (c ∷ cs) = form_byte c ++ form_text cs

abbrev pub IsByte : ℕ → Type 0
IsByte c = c < 256

hex_value-hex_upper : (n : ℕ) → n < 16 → hex_value (hex_upper n) ≡ some n
unfolding hex_value
hex_value-hex_upper n h = ground arith

decode_plain :
    (c : ℕ) (rest : Text)
    → (c == b'%') ≡ false
    → decode (c ∷ rest) ≡ cons_some (plain_byte c) (decode rest)
unfolding decode
decode_plain c [] h = ground arith
decode_plain c (d ∷ []) h = ground arith
decode_plain c (d ∷ e ∷ rest) h = ground arith

decode_escape :
    (b : ℕ) (rest : Text)
    → b < 256
    → decode (b'%' ∷ hex_upper (b / 16) ∷ hex_upper (b % 16) ∷ rest) ≡ cons_some b (decode rest)
unfolding decode
decode_escape b rest h =
    rw (hex_value-hex_upper (b / 16) (omega arith), hex_value-hex_upper (b % 16) (omega arith))
      (ap (λ x. cons_some x (decode rest)) (omega arith))

safe_byte : (c : ℕ) → is_safe c ≡ true → ((c == b'%') ≡ false) × (plain_byte c ≡ c)
safe_byte c h = ground arith

decode-form_byte :
    (c : ℕ) (rest : Text) → c < 256 → decode (form_byte c ++ rest) ≡ cons_some c (decode rest)
decode-form_byte c rest h = elim (Bool-cases (is_safe c)) [
  | inl safe ↦
      let (other, same) = safe_byte c safe in
      rw safe (decode_plain c rest other ∙ ap (λ x. cons_some x (decode rest)) same)
  | inr unsafe ↦ rw unsafe (elim (Bool-cases (c == b' ')) [
    | inl blank ↦
        rw blank (decode_plain b'+' rest refl ∙ ap (λ x. cons_some x (decode rest)) (ground arith))
    | inr dark ↦ rw dark (decode_escape c rest h)
  ])
]

decode-form_text : (s : Text) → All IsByte s → decode (form_text s) ≡ some s
decode-form_text [] h = unfold decode in refl
decode-form_text (c ∷ cs) (h, hs) =
    decode-form_byte c (form_text cs) h ∙ ap (cons_some c) (decode-form_text cs hs)

ordinary_byte : (c : ℕ) → is_special c ≡ false → ((c == b'%') ≡ false) × (plain_byte c ≡ c)
ordinary_byte c h = ground arith

decode_ordinary : (t : Text) → any is_special t ≡ false → decode t ≡ some t
unfolding any
decode_ordinary [] h = unfold decode in refl
decode_ordinary (c ∷ cs) h =
    let (other, same) = ordinary_byte c (ground arith) in
    decode_plain c cs other
    ∙ ap (cons_some (plain_byte c)) (decode_ordinary cs (ground arith))
    ∙ ap (λ x. some (x ∷ cs)) same

same_text : (s t : Text) → ◌≡◌ {A = Option Text} (some s) (some t) → s ≡ t
same_text s t e = cc

pub decode_component-form_text :
    (s : Text) → All IsByte s → is_utf8 s ≡ true → decode_component (form_text s) ≡ s
unfolding decode_component
decode_component-form_text s h valid = elim (Bool-cases (any is_special (form_text s))) [
  | inl special ↦ rw (special, decode-form_text s h) (ground arith)
  | inr ordinary ↦
      rw ordinary
        (same_text _ _ (sym (decode_ordinary (form_text s) ordinary) ∙ decode-form_text s h))
]
