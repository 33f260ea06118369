-- ===== src/Smtp/Quiet.antt =====
-- Which steps of a session leave the message alone, and how often a session connects.
use lagoon_email.Prelude.{
  ℕ, ◌+◌, Text, Bool, true, false, Option, List, [], ◌∷◌, Result, ok, err, ◌≡◌, refl, ◌∙◌, arith,
  some, none, inl, inr, Bool-cases,
}
use lagoon_email.Mail.Error.{TransportError}
use lagoon_email.Smtp.{
  Phase, Call, connects, timeout_set, read, command_line, payload, Wire, Session, SmtpFailure,
  continue, ◌>>=◌, call, answered, read_lines, read_reply, expect, expecting, command, offer_all,
  offer_one, on_code, accept_recipients, before_data, Outgoing, quit,
}
use lagoon_email.Smtp.Address.{is_valid_envelope_address}

-- how often the message was handed to the transport
unfoldable pub payloads : List Call → ℕ
payloads [] = 0
payloads (payload m ∷ calls) = payloads calls + 1
payloads (_ ∷ calls) = payloads calls

abbrev pub is_payload : Call → Bool
is_payload (payload m) = true
is_payload _ = false

abbrev pub Quiet : {A : Type 0} → Session A → Type 0
Quiet m = (w : Wire) → payloads (m w).1.calls ≡ payloads w.calls

continue-Quiet :
    {A B : Type 0} (k : A → Session B) (r : Result SmtpFailure A × Wire)
    → ((a : A) → Quiet (k a))
    → payloads (continue k r).1.calls ≡ payloads r.1.calls
continue-Quiet k (ok a, w) q = q a w
continue-Quiet k (err f, w) q = refl

pub bind-Quiet :
    {A B : Type 0} (m : Session A) (k : A → Session B)
    → Quiet m
    → ((a : A) → Quiet (k a))
    → Quiet (m >>= k)
unfolding ◌>>=◌
bind-Quiet m k qm qk w = continue-Quiet k (m w) qk ∙ qm w

answered-calls :
    (phase : Phase) (answers : List (Result TransportError Text)) (calls : List Call)
    → (answered phase answers calls).1.calls ≡ calls
answered-calls phase [] calls = refl
answered-calls phase (ok line ∷ rest) calls = refl
answered-calls phase (err e ∷ rest) calls = refl

pub call-payloads :
    (c : Call) (phase : Phase) (w : Wire)
    → payloads (call c phase w).1.calls ≡ payloads (c ∷ w.calls)
unfolding call
call-payloads c phase w = rw (answered-calls phase w.answers (c ∷ w.calls)) refl

command_line-Quiet : (line : Text) (phase : Phase) → Quiet (call (command_line line) phase)
unfolding payloads
command_line-Quiet line phase w = call-payloads (command_line line) phase w

read_lines-Quiet :
    (phase : Phase) (answers : List (Result TransportError Text)) (calls : List Call)
    → payloads (read_lines phase answers calls).1.calls ≡ payloads calls
unfolding read_lines payloads
read_lines-Quiet phase [] calls = refl
read_lines-Quiet phase (err e ∷ rest) calls = refl
read_lines-Quiet phase (ok u ∷ []) calls = refl
read_lines-Quiet phase (ok u ∷ err e ∷ rest) calls = refl
read_lines-Quiet phase (ok u ∷ ok line ∷ rest) calls =
    ground (arith, read_lines-Quiet phase rest (read ∷ timeout_set ∷ calls))

pub read_reply-Quiet : (phase : Phase) → Quiet (read_reply phase)
unfolding read_reply
read_reply-Quiet phase w = read_lines-Quiet phase w.answers w.calls

expecting-Quiet : (expected : ℕ) (phase : Phase) (code : ℕ) → Quiet (expecting expected phase code)
expecting-Quiet expected phase code w = ground arith

pub expect-Quiet : (expected : ℕ) (phase : Phase) → Quiet (expect expected phase)
unfolding expect
expect-Quiet expected phase =
    bind-Quiet (read_reply phase) (expecting expected phase) (read_reply-Quiet phase)
      (expecting-Quiet expected phase)

pub command-Quiet :
    (line : Text) (expected : ℕ) (phase : Phase) → Quiet (command line expected phase)
unfolding command
command-Quiet line expected phase =
    bind-Quiet _ _ (command_line-Quiet _ phase) (λ _. expect-Quiet expected phase)

offer_one-Quiet : (address : Text) → Quiet (offer_one address)
unfolding offer_one
offer_one-Quiet address = bind-Quiet _ _ (command_line-Quiet _ _) (λ _. read_reply-Quiet _)

on_code-Quiet :
    (a : Session (Unit {0})) (r : ℕ → Session (Unit {0})) (code : ℕ)
    → Quiet a
    → ((n : ℕ) → Quiet (r n))
    → Quiet (on_code a r code)
on_code-Quiet a r code qa qr w = ground (arith, qa w, qr code w)

tried-Quiet :
    (address : Text) (a : Session (Unit {0})) (r : ℕ → Session (Unit {0}))
    → Quiet a
    → ((n : ℕ) → Quiet (r n))
    → Quiet (offer_one address >>= on_code a r)
tried-Quiet address a r qa qr =
    bind-Quiet (offer_one address) _ (offer_one-Quiet address)
      (λ code. on_code-Quiet a r code qa qr)

offer_all-Quiet :
    (accepted : Bool) (last : Option ℕ) (addresses : List Text)
    → Quiet (offer_all accepted last addresses)
unfolding offer_all
offer_all-Quiet true last [] w = refl
offer_all-Quiet false last [] w = refl
offer_all-Quiet accepted last (address ∷ rest) w =
    elim (Bool-cases (is_valid_envelope_address address)) [
      | inl e ↦ rw e (
          tried-Quiet address _ _ (offer_all-Quiet true last rest)
            (λ n. offer_all-Quiet accepted (some n) rest) w)
      | inr e ↦ rw e refl
    ]

accept_recipients-Quiet : (addresses : List Text) → Quiet (accept_recipients addresses)
unfolding accept_recipients
accept_recipients-Quiet [] w = refl
accept_recipients-Quiet (a ∷ rest) w = offer_all-Quiet false none (a ∷ rest) w

-- Nothing before the answer to DATA hands the message over.
pub before_data-Quiet : (o : Outgoing) → Quiet (before_data o)
unfolding before_data payloads
before_data-Quiet o = bind-Quiet _ _ (call-payloads connects _) (λ _.
    bind-Quiet _ _ (expect-Quiet _ _) (λ _. bind-Quiet _ _ (command-Quiet _ _ _) (λ _.
      bind-Quiet _ _ (command-Quiet _ _ _) (λ _.
        bind-Quiet _ _ (command-Quiet _ _ _) (λ _.
          bind-Quiet _ _ (accept_recipients-Quiet o.recipients) (λ _. command-Quiet _ _ _))))))

pub payloads-quit : (w : Wire) → payloads (quit w).calls ≡ payloads w.calls
unfolding quit
payloads-quit w = read_reply-Quiet _ (call _ _ w).1 ∙ command_line-Quiet _ _ w
