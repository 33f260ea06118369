-- ===== src/Smtp/Once.antt =====
-- How often `send_raw` hands the message to the transport, and when it does.
use lagoon_email.Prelude.{
  ℕ, not, ◌+◌, Text, Bool, true, false, List, [], ◌∷◌, Result, ok, err, ◌≡◌, refl, ◌∙◌, ap, arith,
  ◌⊎◌, inl, inr, Bool-cases,
}
use lagoon_email.Mail.Error.{MailError, TransportError}
use lagoon_email.Smtp.{
  read, timeout_set, post_data, Call, payload, Wire, Session, SmtpFailure, continue, ◌>>=◌, ◌>>◌,
  call, answered, read_reply, expect, hand_over, failure, failure_for_code, transport_failure,
  before_data, Outgoing, quitting, run_session, close, retried, surfaced, send_raw, read_lines,
}
use lagoon_email.Smtp.Address.{is_valid_envelope_address}
use lagoon_email.Smtp.Quiet.{
  payloads, Quiet, bind-Quiet, call-payloads, expect-Quiet, before_data-Quiet, payloads-quit,
}

abbrev pub is_ok {ℓ κ} : {E : Type ℓ} {A : Type κ} → Result E A → Bool
is_ok (ok a) = true
is_ok (err e) = false

-- The session is over: it succeeded, or its failure is not to be retried.
abbrev is_final : {A : Type 0} → Result SmtpFailure A → Bool
is_final (ok a) = true
is_final (err f) = not f.retryable

is_final-read_lines :
    (answers : List (Result TransportError Text)) (calls : List Call)
    → is_final (read_lines post_data answers calls).0 ≡ true
unfolding read_lines transport_failure failure
is_final-read_lines [] calls = refl
is_final-read_lines (err e ∷ rest) calls = refl
is_final-read_lines (ok u ∷ []) calls = refl
is_final-read_lines (ok u ∷ err e ∷ rest) calls = refl
is_final-read_lines (ok u ∷ ok line ∷ rest) calls =
    ground (arith, is_final-read_lines rest (read ∷ timeout_set ∷ calls))

is_final-bind :
    {A B : Type 0} (m : Session A) (k : A → Session B) (w : Wire)
    → is_final (m w).0 ≡ true
    → ((a : A) (v : Wire) → is_final (k a v).0 ≡ true)
    → is_final ((m >>= k) w).0 ≡ true
unfolding ◌>>=◌
is_final-bind {A = A} {B = B} m k w h hk = settled (m w) h
  where
    settled :
        (r : Result SmtpFailure A × Wire) → is_final r.0 ≡ true → is_final (continue k r).0 ≡ true
    settled (ok a, v) h = hk a v
    settled (err f, v) h = h

is_final-call : (c : Call) (w : Wire) → is_final (call c post_data w).0 ≡ true
unfolding call transport_failure failure
is_final-call c w = reached w.answers (c ∷ w.calls)
  where
    reached :
        (answers : List (Result TransportError Text)) (calls : List Call)
        → is_final (answered post_data answers calls).0 ≡ true
    reached [] calls = refl
    reached (ok line ∷ rest) calls = refl
    reached (err e ∷ rest) calls = refl

is_final-expect : (expected : ℕ) (w : Wire) → is_final (expect expected post_data w).0 ≡ true
unfolding expect read_reply failure_for_code
is_final-expect expected w =
    is_final-bind (read_reply post_data) _ w (is_final-read_lines w.answers w.calls)
      (λ code v. ground arith)

-- Once the message is handed over the session is final, and it is handed over once.
is_final-hand_over : (o : Outgoing) (w : Wire) → is_final (hand_over o w).0 ≡ true
unfolding hand_over
is_final-hand_over o w =
    is_final-bind _ _ w (is_final-call _ w)
      (λ _ v. is_final-bind _ _ v (is_final-expect 250 v) (λ _ _. refl))

payloads-hand_over :
    (o : Outgoing) (w : Wire) → payloads (hand_over o w).1.calls ≡ payloads w.calls + 1
unfolding hand_over payloads ◌>>=◌
payloads-hand_over o w =
    handed (call (payload _) post_data w) ∙ call-payloads (payload _) post_data w
  where
    answered_250 : Quiet (expect 250 post_data >> quitting)
    answered_250 =
        bind-Quiet (expect 250 post_data) _ (expect-Quiet 250 post_data) (λ _ v. payloads-quit v)

    handed :
        (r : Result SmtpFailure Text × Wire)
        → payloads (continue (λ _. expect 250 post_data >> quitting) r).1.calls ≡ payloads r.1.calls
    handed (ok t, v) = answered_250 v
    handed (err f, v) = refl

-- One session: either it failed before the message, or it handed it over once and is final.
abbrev After : Wire → Result SmtpFailure (Unit {0}) × Wire → Type 0
After w r =
    ((payloads r.1.calls ≡ payloads w.calls) × (is_ok r.0 ≡ false))
    ⊎ ((payloads r.1.calls ≡ payloads w.calls + 1) × (is_final r.0 ≡ true))

run_session-After : (o : Outgoing) (w : Wire) → After w (run_session o w)
unfolding run_session ◌>>=◌
run_session-After o w = elim (Bool-cases (is_valid_envelope_address o.from_email)) [
  | inl e ↦ rw e (prepared (before_data o w) (before_data-Quiet o w))
  | inr e ↦ rw e (inl (refl, refl))
]
  where
    prepared :
        (r : Result SmtpFailure (Unit {0}) × Wire)
        → payloads r.1.calls ≡ payloads w.calls
        → After w (continue (λ _. hand_over o) r)
    prepared (ok u, v) q =
        inr (rw (payloads-hand_over o v) (ap (λ n. n + 1) q), is_final-hand_over o v)
    prepared (err f, v) q = inl (q, refl)

payloads-close : (w : Wire) → payloads (close w).calls ≡ payloads w.calls
unfolding close payloads
payloads-close w = refl

abbrev Sent : Wire → Result MailError (Unit {0}) × Wire → Type 0
Sent w r =
    (payloads r.1.calls ≡ payloads w.calls + 1)
    ⊎ ((payloads r.1.calls ≡ payloads w.calls) × (is_ok r.0 ≡ false))

-- However the server answers, a send hands the message to the transport once, in one session or in two,
-- or it never does and reports a failure: no retry can deliver a mail twice.
pub send_raw_once :
    (o : Outgoing) (w : Wire)
    → (payloads (send_raw o w).1.calls ≡ payloads w.calls + 1)
      ⊎ ((payloads (send_raw o w).1.calls ≡ payloads w.calls) × (is_ok (send_raw o w).0 ≡ false))
unfolding send_raw close payloads
send_raw_once o w = first (run_session o w) (run_session-After o w)
  where
    second :
        (v : Wire) (r : Result SmtpFailure (Unit {0}) × Wire)
        → payloads v.calls ≡ payloads w.calls
        → After v r
        → Sent w (surfaced r)
    second v (ok u, v2) q h = ground (arith, h, q)
    second v (err f, v2) q h = ground (arith, h, q)

    first : (r : Result SmtpFailure (Unit {0}) × Wire) → After w r → Sent w (retried o r)
    first (ok u, v) h = ground (arith, h)
    first (err f, v) (inl (q, e)) = elim (Bool-cases f.retryable) [
      | inl t ↦ rw t (second (close v) _ q (run_session-After o (close v)))
      | inr t ↦ rw t (inr (q, refl))
    ]
    first (err f, v) (inr (q, e)) = elim (Bool-cases f.retryable) [
      | inl t ↦ ground (arith, q, e, t)
      | inr t ↦ rw t (inl q)
    ]
