-- ===== src/Smtp/Address/Line.antt =====
-- The command line of a recipient.
use lagoon_email.Prelude.{
  Text, codes, true, false, [], ◌∷◌, ◌++◌, ◌==◌, any, ◌≡◌, refl, arith, some, split_once, ap, ◌∙◌,
}
use lagoon_email.Smtp.{rcpt_line}
use lagoon_email.Smtp.Stuffing.{split_crlf}
use lagoon_email.Smtp.Stuffing.Received.{IsLine, split_crlf-append, split_crlf-pushed}
use lagoon_email.Smtp.Address.{is_valid_envelope_address, unsafe_in_path, crlf}

is_valid-safe : (a : Text) → is_valid_envelope_address a ≡ true → any unsafe_in_path a ≡ false
unfolding is_valid_envelope_address
is_valid-safe a h = ground (arith, h)

-- Without a carriage return there is no line break.
any-IsLine : (t : Text) → any (λ c. c == 13) t ≡ false → IsLine t
unfolding any split_crlf
any-IsLine [] h = refl
any-IsLine (c ∷ []) h = refl
any-IsLine (c ∷ d ∷ cs) h =
    split_crlf-pushed c d cs (ground (arith, h)) ∙ rw (any-IsLine (d ∷ cs) (ground (arith, h))) refl

closed_path :
    (a : Text) → any unsafe_in_path a ≡ false → any (λ c. c == 13) (a ++ (b'>' ∷ [])) ≡ false
unfolding any unsafe_in_path
closed_path [] h = refl
closed_path (c ∷ cs) h =
    let ih = closed_path cs (ground (arith, h)) in
    let e : (c == 13) ≡ false = ground (arith, h) in rw (e, ih) refl

split_once-path :
    (a : Text) (rest : Text)
    → any unsafe_in_path a ≡ false
    → split_once b'>' (a ++ (b'>' ∷ rest)) ≡ some (a, rest)
unfolding any unsafe_in_path split_once
split_once-path [] rest h = refl
split_once-path (c ∷ cs) rest h =
    let ih = split_once-path cs rest (ground (arith, h)) in
    let e : (c == b'>') ≡ false = ground (arith, h) in rw (e, ih) refl

-- The command of an address that is accepted is one line, whatever is sent after it, and the path that
-- it names, up to the first closing bracket, is the address itself: no address can add a command.
pub rcpt_line_safe :
    (address following : Text)
    → is_valid_envelope_address address ≡ true
    → (split_crlf (rcpt_line address ++ following)
        ≡ (codes "RCPT TO:<" ++ (address ++ codes ">")) ∷ split_crlf following)
      × (split_once b'>' (address ++ (b'>' ∷ crlf)) ≡ some (address, crlf))
unfolding any split_crlf
rcpt_line_safe address following h = (line, split_once-path address crlf (is_valid-safe address h))
  where
    whole : IsLine (codes "RCPT TO:<" ++ (address ++ codes ">"))
    whole = any-IsLine _ (closed_path address (is_valid-safe address h))

    joined :
        (a : Text)
        → (a ++ (codes ">" ++ crlf)) ++ following ≡ (a ++ codes ">") ++ (13 ∷ 10 ∷ following)
    joined [] = refl
    joined (c ∷ cs) = ap (λ t. c ∷ t) (joined cs)

    line :
        split_crlf (rcpt_line address ++ following)
        ≡ (codes "RCPT TO:<" ++ (address ++ codes ">")) ∷ split_crlf following
    line =
        ap (λ t. split_crlf (codes "RCPT TO:<" ++ t)) (joined address)
        ∙ (split_crlf-append (codes "RCPT TO:<" ++ (address ++ codes ">")) following
            ∙ rw whole refl)
