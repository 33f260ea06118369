-- ===== src/Smtp/Replies.antt =====
-- What the replies of the server decide.
use lagoon_email.Prelude.{
  ℕ, Text, codes, Bool, true, false, ◌||◌, Option, some, none, List, [], ◌∷◌, Result, ok, err, ◌==◌,
  ◌≡◌, refl, arith, All, any, find, ◌∙◌, Bool-cases, inl, inr, if◌then◌else◌,
}
use lagoon_email.Mail.Error.{TransportError}
use lagoon_email.Smtp.{
  Phase, pre_data, Call, Session, SmtpFailure, failure_for_code, is_transient, read, timeout_set,
  reply_line, read_lines, read_reply, rcpt_line, command_line, accept_recipients, offer_all,
  offer_one, on_code, or_550, call, ◌>>=◌,
}
use lagoon_email.Smtp.Address.{is_valid_envelope_address}

-- what the transport answers while it gives these lines
abbrev pub lines_read :
    List Text → List (Result TransportError Text) → List (Result TransportError Text)
lines_read [] rest = rest
lines_read (l ∷ ls) rest = ok [] ∷ ok l ∷ lines_read ls rest

abbrev pub GoesOn : Text → Type 0
GoesOn l = (code : ℕ) × (reply_line l ≡ some (code, true))

read_lines-last :
    (phase : Phase) (ls : List Text) (l : Text) (code : ℕ)
    (rest : List (Result TransportError Text)) (calls : List Call)
    → All GoesOn ls
    → reply_line l ≡ some (code, false)
    → ((read_lines phase (lines_read ls (ok [] ∷ ok l ∷ rest)) calls).0 ≡ ok code)
      × ((read_lines phase (lines_read ls (ok [] ∷ ok l ∷ rest)) calls).1.answers ≡ rest)
unfolding read_lines
read_lines-last phase [] l code rest calls a h = rw (read_lines, h) (refl, refl)
read_lines-last phase (m ∷ ls) l code rest calls ((n, g), a) h =
    rw (read_lines, g) (read_lines-last phase ls l code rest (read ∷ timeout_set ∷ calls) a h)

-- A reply of any number of lines counts as the code of its last line, and nothing after that line is
-- read.
pub read_reply-last :
    (phase : Phase) (ls : List Text) (l : Text) (code : ℕ)
    (rest : List (Result TransportError Text)) (calls : List Call)
    → All GoesOn ls
    → reply_line l ≡ some (code, false)
    → ((read_reply phase
          (record { answers = lines_read ls (ok [] ∷ ok l ∷ rest); calls = calls })).0
        ≡ ok code)
      × ((read_reply phase
            (record { answers = lines_read ls (ok [] ∷ ok l ∷ rest); calls = calls })).1.answers
          ≡ rest)
unfolding read_reply
read_reply-last phase ls l code rest calls a h = read_lines-last phase ls l code rest calls a h

-- An address with the line of the server's answer and its code.
pub record Offer : Type 0 where
  pub address : Text
  pub line : Text
  pub code : ℕ

abbrev pub IsAnswered : Offer → Type 0
IsAnswered o =
    (is_valid_envelope_address o.address ≡ true) × (reply_line o.line ≡ some (o.code, false))

abbrev pub addresses : List Offer → List Text
addresses [] = []
addresses (o ∷ os) = o.address ∷ addresses os

abbrev pub offer_codes : List Offer → List ℕ
offer_codes [] = []
offer_codes (o ∷ os) = o.code ∷ offer_codes os

abbrev pub offers_answered : List Offer → List (Result TransportError Text)
offers_answered [] = []
offers_answered (o ∷ os) = ok [] ∷ ok [] ∷ ok o.line ∷ offers_answered os

-- The rule of the documentation: a code from 400 to 499 is a verdict about the session; without one, the
-- mail goes out if any address was accepted, and else fails by the last code.
abbrev pub last_code : Option ℕ → List ℕ → Option ℕ
last_code n [] = n
last_code n (c ∷ cs) = last_code (some c) cs

abbrev pub without_transient : List ℕ → Option ℕ → Result SmtpFailure (Unit {0})
without_transient codes last =
    if any (λ c. c == 250) codes then ok tt else err (failure_for_code (or_550 last) pre_data)

abbrev pub verdict : List ℕ → Result SmtpFailure (Unit {0})
verdict codes = elim (find is_transient codes) [
  | some c ↦ err (failure_for_code c pre_data)
  | none ↦ without_transient codes (last_code none codes)
]

abbrev verdict_from : Bool → Option ℕ → List ℕ → Result SmtpFailure (Unit {0})
verdict_from accepted last codes = elim (find is_transient codes) [
  | some c ↦ err (failure_for_code c pre_data)
  | none ↦
      if accepted || any (λ c. c == 250) codes
      then ok tt
      else err (failure_for_code (or_550 (last_code last codes)) pre_data)
]

bind-offer_one :
    (o : Offer) (k : ℕ → Session (Unit {0})) (rest : List (Result TransportError Text))
    (calls : List Call)
    → reply_line o.line ≡ some (o.code, false)
    → (offer_one o.address >>= k)
        (record { answers = ok [] ∷ ok [] ∷ ok o.line ∷ rest; calls = calls })
      ≡ k o.code (record {
        answers = rest;
        calls = read ∷ timeout_set ∷ command_line (rcpt_line o.address) ∷ calls;
      })
unfolding offer_one ◌>>=◌ call read_reply read_lines
bind-offer_one o k rest calls h = rw (read_lines, h) refl

verdict_from-250 :
    (accepted : Bool) (last : Option ℕ) (c : ℕ) (cs : List ℕ)
    → c == 250 ≡ true
    → verdict_from true last cs ≡ verdict_from accepted last (c ∷ cs)
unfolding find any
verdict_from-250 true last c cs h = ground (arith, h)
verdict_from-250 false last c cs h = ground (arith, h)

verdict_from-transient :
    (accepted : Bool) (last : Option ℕ) (c : ℕ) (cs : List ℕ)
    → is_transient c ≡ true
    → err (failure_for_code c pre_data) ≡ verdict_from accepted last (c ∷ cs)
unfolding find
verdict_from-transient accepted last c cs h = ground (arith, h)

verdict_from-rejected :
    (accepted : Bool) (last : Option ℕ) (c : ℕ) (cs : List ℕ)
    → c == 250 ≡ false
    → is_transient c ≡ false
    → verdict_from accepted (some c) cs ≡ verdict_from accepted last (c ∷ cs)
unfolding find any
verdict_from-rejected accepted last c cs h t = ground (arith, h, t)

offer_all-verdict_from :
    (accepted : Bool) (last : Option ℕ) (os : List Offer) (calls : List Call)
    → All IsAnswered os
    → (offer_all accepted last
        (addresses os)
        (record { answers = offers_answered os; calls = calls })).0
      ≡ verdict_from accepted last (offer_codes os)
unfolding offer_all find any
offer_all-verdict_from true last [] calls a = refl
offer_all-verdict_from false last [] calls a = refl
offer_all-verdict_from accepted last (o ∷ os) calls ((v, h), a) =
    rw
      (
        v,
        bind-offer_one o
            (on_code (offer_all true last (addresses os))
              (λ code. offer_all accepted (some code) (addresses os)))
            (offers_answered os) calls h,
      )
      (elim (Bool-cases (o.code == 250)) [
        | inl e ↦ rw e (
            offer_all-verdict_from true last os _ a
            ∙ verdict_from-250 accepted last o.code (offer_codes os) e)
        | inr e ↦ elim (Bool-cases (is_transient o.code)) [
          | inl t ↦ rw (e, t) (verdict_from-transient accepted last o.code (offer_codes os) t)
          | inr t ↦
              rw (e, t)
                (offer_all-verdict_from accepted (some o.code) os _ a
                  ∙ verdict_from-rejected accepted last o.code (offer_codes os) e t)
        ]
      ])

-- Where the server answers for every address, the outcome is the rule's: one rejected mailbox does not
-- keep the mail from the others, a transient answer stops the session even after an address was accepted,
-- and a mail that no address accepted fails.
pub accept_recipients-verdict :
    (o : Offer) (os : List Offer) (calls : List Call)
    → All IsAnswered (o ∷ os)
    → (accept_recipients
        (addresses (o ∷ os))
        (record { answers = offers_answered (o ∷ os); calls = calls })).0
      ≡ verdict (offer_codes (o ∷ os))
unfolding accept_recipients
accept_recipients-verdict o os calls a = offer_all-verdict_from false none (o ∷ os) calls a
