-- ===== src/Smtp.antt =====
-- crates/lagoon-mail/src/smtp/client.rs: one SMTP delivery. The transport is a list of the answers that
-- its calls get, in their order, and a record of the calls that were made, the last one first. Every
-- answer that is missing is a closed connection, so that a session over any finite list ends.
pub mod Stuffing
pub mod Address
pub mod Quiet
pub mod Once
pub mod Replies
use lagoon_email.Prelude.{
  ℕ, ◌+◌, ◌*◌, ◌-◌, Text, codes, Bool, true, false, not, ◌&&◌, Option, none, some, List, [], ◌∷◌,
  ◌++◌, Result, ok, err, ◌==◌, leb, if◌then◌else◌,
}
use lagoon_email.Mail.Error.{
  MailError, TransportError, closed, smtp, to_mail, auth_failed, unreachable_status, protocol,
  protocol_status,
}
use lagoon_email.Smtp.Stuffing.{dot_stuffed_for_data}
use lagoon_email.Smtp.Address.{is_valid_envelope_address, crlf}

pub data Phase : Type 0 where
  auth pre_data post_data : Phase

abbrev is_post_data : Phase → Bool
is_post_data post_data = true
is_post_data _ = false

pub record SmtpFailure : Type 0 where
  pub error : MailError
  pub retryable : Bool

-- `SmtpFailure::new`
unfoldable pub failure : MailError → Phase → SmtpFailure
failure error phase = record { error = error; retryable = not (is_post_data phase) }

-- What `write_all` is given: a command line or the message. The program writes bytes in both cases.
pub data Call : Type 0 where
  connects timeout_set read closes : Call
  command_line : Text → Call
  payload : Text → Call

pub record Wire : Type 0 where
  pub answers : List (Result TransportError Text)
  pub calls : List Call

-- A step of a session: it may fail, and the calls that it made remain.
abbrev pub Session : Type 0 → Type 0
Session A = Wire → Result SmtpFailure A × Wire

abbrev pub done : {A : Type 0} → A → Session A
done a w = (ok a, w)

abbrev pub fail : {A : Type 0} → SmtpFailure → Session A
fail f w = (err f, w)

abbrev pub continue :
    {A B : Type 0} → (A → Session B) → Result SmtpFailure A × Wire → Result SmtpFailure B × Wire
continue k (ok a, w) = k a w
continue k (err f, w) = (err f, w)

infixl 5 ◌>>=◌ ◌>>◌
unfoldable pub ◌>>=◌ : {A B : Type 0} → Session A → (A → Session B) → Session B
(m >>= k) w = continue k (m w)

abbrev pub ◌>>◌ : {A B : Type 0} → Session A → Session B → Session B
m >> k = m >>= λ _. k

unfoldable pub transport_failure : TransportError → Phase → SmtpFailure
transport_failure e phase = failure (to_mail smtp e) phase

abbrev pub answered :
    Phase → List (Result TransportError Text) → List Call → Result SmtpFailure Text × Wire
answered phase [] calls =
    (err (transport_failure closed phase), record { answers = []; calls = calls })
answered phase (ok line ∷ rest) calls = (ok line, record { answers = rest; calls = calls })
answered phase (err e ∷ rest) calls =
    (err (transport_failure e phase), record { answers = rest; calls = calls })

-- A call of the transport, with its error as the phase's failure.
unfoldable pub call : Call → Phase → Session Text
call c phase w = answered phase w.answers (c ∷ w.calls)

-- `transport.close()`
unfoldable pub close : Wire → Wire
close w = record w { calls = closes ∷ w.calls }

-- `(400..=499).contains(&code)`
abbrev pub is_transient : ℕ → Bool
is_transient code = leb 400 code && leb code 499

unfoldable pub failure_for_code : ℕ → Phase → SmtpFailure
failure_for_code code auth =
    if is_transient code
    then record { error = unreachable_status (codes "smtp-status") code; retryable = true }
    else record { error = auth_failed; retryable = false }
failure_for_code code post_data = record {
  error = protocol_status (codes "smtp-status") code;
  retryable = false;
}
failure_for_code code pre_data =
    if is_transient code
    then record { error = unreachable_status (codes "smtp-status") code; retryable = true }
    else record { error = protocol_status (codes "smtp-status") code; retryable = false }

abbrev pub is_digit : ℕ → Bool
is_digit c = leb b'0' c && leb c b'9'

-- `bytes.len() > 3 && bytes[3] == b'-'`
abbrev continues : Text → Bool
continues [] = false
continues (c ∷ cs) = c == b'-'

-- One line of a reply: `none` where it is too short or not a number, else its code and whether the reply
-- goes on.
unfoldable pub reply_line : Text → Option (ℕ × Bool)
reply_line [] = none
reply_line (a ∷ []) = none
reply_line (a ∷ b ∷ []) = none
reply_line (a ∷ b ∷ c ∷ rest) =
    if is_digit a && (is_digit b && is_digit c)
    then some (100 * (a - b'0') + (10 * (b - b'0') + (c - b'0')), continues rest)
    else none

abbrev pub short_line : Phase → SmtpFailure
short_line phase = failure (protocol (codes "smtp-short-line")) phase

-- The loop of `read_reply`: each round sets the timeout and reads a line, so it uses two answers.
unfoldable pub read_lines :
    Phase → List (Result TransportError Text) → List Call → Result SmtpFailure ℕ × Wire
read_lines phase [] calls =
    (err (transport_failure closed phase), record { answers = []; calls = timeout_set ∷ calls })
read_lines phase (err e ∷ rest) calls =
    (err (transport_failure e phase), record { answers = rest; calls = timeout_set ∷ calls })
read_lines phase (ok u ∷ []) calls = (
  err (transport_failure closed phase),
  record { answers = []; calls = read ∷ timeout_set ∷ calls },
)
read_lines phase (ok u ∷ err e ∷ rest) calls =
    (err (transport_failure e phase), record { answers = rest; calls = read ∷ timeout_set ∷ calls })
read_lines phase (ok u ∷ ok line ∷ rest) calls = elim (reply_line line) [
  | none ↦ (err (short_line phase), record { answers = rest; calls = read ∷ timeout_set ∷ calls })
  | some (code, true) ↦ read_lines phase rest (read ∷ timeout_set ∷ calls)
  | some (code, false) ↦ (ok code, record { answers = rest; calls = read ∷ timeout_set ∷ calls })
]

unfoldable pub read_reply : Phase → Session ℕ
read_reply phase w = read_lines phase w.answers w.calls

abbrev pub expecting : ℕ → Phase → ℕ → Session (Unit {0})
expecting expected phase code =
    if code == expected then done tt else fail (failure_for_code code phase)

unfoldable pub expect : ℕ → Phase → Session (Unit {0})
expect expected phase = do code ← read_reply phase; expecting expected phase code

unfoldable pub command : Text → ℕ → Phase → Session (Unit {0})
command line expected phase = do _ ← call (command_line (line ++ crlf)) phase; expect expected phase

abbrev pub no_retry : Text → SmtpFailure
no_retry code = record { error = protocol code; retryable = false }

abbrev pub or_550 : Option ℕ → ℕ
or_550 none = 550
or_550 (some code) = code

abbrev pub rcpt_line : Text → Text
rcpt_line address = codes "RCPT TO:<" ++ (address ++ (codes ">" ++ crlf))

-- What the loop of `accept_recipients` does on the code of one address
abbrev pub on_code : Session (Unit {0}) → (ℕ → Session (Unit {0})) → ℕ → Session (Unit {0})
on_code after_250 after_rejection code =
    if code == 250
    then after_250
    else if is_transient code
    then fail (failure_for_code code pre_data)
    else after_rejection code

unfoldable pub offer_one : Text → Session ℕ
offer_one address = do _ ← call (command_line (rcpt_line address)) pre_data; read_reply pre_data

-- The loop of `accept_recipients`, with its two variables.
unfoldable pub offer_all : Bool → Option ℕ → List Text → Session (Unit {0})
offer_all accepted last [] =
    if accepted then done tt else fail (failure_for_code (or_550 last) pre_data)
offer_all accepted last (address ∷ rest) =
    if is_valid_envelope_address address
    then (offer_one address
        >>= on_code (offer_all true last rest) (λ code. offer_all accepted (some code) rest))
    else fail (no_retry (codes "smtp-invalid-address"))

unfoldable pub accept_recipients : List Text → Session (Unit {0})
accept_recipients [] = fail (no_retry (codes "smtp-no-recipient"))
accept_recipients (a ∷ rest) = offer_all false none (a ∷ rest)

-- Both errors of `quit` are dropped.
unfoldable pub quit : Wire → Wire
quit w =
    let (_, after_write) = call (command_line (codes "QUIT" ++ crlf)) post_data w in
    let (_, after_read) = read_reply post_data after_write in after_read

abbrev pub quitting : Session (Unit {0})
quitting w = (ok tt, quit w)

-- What a session is about; `base64` and `lossy` are the encoders that the program calls.
pub record Outgoing : Type 0 where
  pub base64 : Text → Text
  pub lossy : Text → Text
  pub from_email : Text
  pub recipients : List Text
  pub message : Text
  pub username : Text
  pub auth_code : Text

abbrev pub credentials : Outgoing → Text
credentials o = o.base64 (0 ∷ (o.username ++ (0 ∷ o.auth_code)))

-- What `run_session` does before the message is on the wire
unfoldable pub before_data : Outgoing → Session (Unit {0})
before_data o = do
  _ ← call connects pre_data
  _ ← expect 220 pre_data
  _ ← command (codes "EHLO lagoon.local") 250 pre_data
  _ ← command (codes "AUTH PLAIN " ++ credentials o) 235 auth
  _ ← command (codes "MAIL FROM:<" ++ (o.from_email ++ codes ">")) 250 pre_data
  _ ← accept_recipients o.recipients
  command (codes "DATA") 354 pre_data

unfoldable pub hand_over : Outgoing → Session (Unit {0})
hand_over o = do
  _ ← call (payload (dot_stuffed_for_data (o.lossy o.message))) post_data
  _ ← expect 250 post_data
  quitting

unfoldable pub run_session : Outgoing → Session (Unit {0})
run_session o =
    if is_valid_envelope_address o.from_email
    then (before_data o >> hand_over o)
    else fail (failure (protocol (codes "smtp-invalid-address")) pre_data)

abbrev pub surfaced : Result SmtpFailure (Unit {0}) × Wire → Result MailError (Unit {0}) × Wire
surfaced (ok u, w) = (ok tt, close w)
surfaced (err f, w) = (err f.error, close w)

abbrev pub retried :
    Outgoing → Result SmtpFailure (Unit {0}) × Wire → Result MailError (Unit {0}) × Wire
retried o (ok u, w) = (ok tt, close w)
retried o (err f, w) =
    if f.retryable then surfaced (run_session o (close w)) else (err f.error, close w)

-- The loop of `send_raw` goes round twice at most, as `attempt == 1` holds in the first round only.
unfoldable pub send_raw : Outgoing → Wire → Result MailError (Unit {0}) × Wire
send_raw o w = retried o (run_session o w)
