-- ===== src/Tests/Smtp.antt =====
-- Sessions of SMTP with a small server.
use lagoon_email.Prelude.{
  Text, codes, List, [], ◌∷◌, ◌++◌, Result, ok, err, ◌≡◌, refl, ◌+◌, ◌⊎◌, false, some, split_once,
  any,
}
use lagoon_email.Mail.Error.{TransportError, timed_out}
use lagoon_email.Smtp.{
  Outgoing, Wire, send_raw, reply_line, read_reply, accept_recipients, rcpt_line, run_session,
  before_data, hand_over, call, expect, read_lines, command, offer_all, offer_one, quit, close,
  ◌>>=◌,
}
use lagoon_email.Smtp.Address.{is_valid_envelope_address, unsafe_in_path, crlf}
use lagoon_email.Smtp.Address.Line.{rcpt_line_safe}
use lagoon_email.Smtp.Stuffing.{split_crlf, dot_stuffed_for_data, with_crlf}
use lagoon_email.Smtp.Stuffing.Received.{received, received-dot_stuffed_for_data}
use lagoon_email.Smtp.Quiet.{payloads}
use lagoon_email.Smtp.Once.{is_ok, send_raw_once}
use lagoon_email.Smtp.Replies.{
  Offer, addresses, offers_answered, offer_codes, verdict, accept_recipients-verdict,
}

abbrev mail_out : Outgoing
mail_out = record {
  base64 = λ t. t;
  lossy = λ t. t;
  from_email = codes "a@b";
  recipients = codes "c@d" ∷ [];
  message = codes "hi";
  username = codes "a";
  auth_code = codes "z";
}

abbrev said : Text → List (Result TransportError Text) → List (Result TransportError Text)
said line rest = ok [] ∷ ok line ∷ rest

abbrev asked : Text → List (Result TransportError Text) → List (Result TransportError Text)
asked line rest = ok [] ∷ said line rest

-- the answers up to the reply to DATA
abbrev up_to_data : List (Result TransportError Text) → List (Result TransportError Text)
up_to_data rest =
    ok []
    ∷ said (codes "220 hi") (
        asked (codes "250-lagoon.local") (
          said (codes "250 AUTH") (
            asked (codes "235 ok")
              (asked (codes "250 ok") (asked (codes "250 ok") (asked (codes "354 go") rest))))))

abbrev delivered : Wire
delivered = record { answers = up_to_data (asked (codes "250 queued") []); calls = [] }

abbrev lost_verdict : Wire
lost_verdict = record { answers = up_to_data (ok [] ∷ ok [] ∷ err timed_out ∷ []); calls = [] }

-- A whole session succeeds although the server hangs up before it answers QUIT.
delivered_runs : (send_raw mail_out delivered).0 ≡ ok tt
unfolding send_raw run_session before_data hand_over ◌>>=◌ call expect read_reply read_lines command
    accept_recipients offer_all offer_one reply_line is_valid_envelope_address any unsafe_in_path
    quit close
delivered_runs = refl

send_raw_once_example :
    (payloads (send_raw mail_out lost_verdict).1.calls ≡ payloads lost_verdict.calls + 1)
    ⊎ ((payloads (send_raw mail_out lost_verdict).1.calls ≡ payloads lost_verdict.calls)
        × (is_ok (send_raw mail_out lost_verdict).0 ≡ false))
send_raw_once_example = send_raw_once mail_out lost_verdict

rcpt_line_safe_example :
    (split_crlf (rcpt_line (codes "c@d") ++ codes "DATA")
      ≡ (codes "RCPT TO:<" ++ (codes "c@d" ++ codes ">")) ∷ split_crlf (codes "DATA"))
    × (split_once b'>' (codes "c@d" ++ (b'>' ∷ crlf)) ≡ some (codes "c@d", crlf))
unfolding is_valid_envelope_address any unsafe_in_path
rcpt_line_safe_example = rcpt_line_safe (codes "c@d") (codes "DATA") refl

abbrev no_such : Offer
no_such = record { address = codes "x@y"; line = codes "550 no"; code = 550 }

abbrev taken : Offer
taken = record { address = codes "c@d"; line = codes "250 ok"; code = 250 }

accept_recipients-verdict_example :
    (accept_recipients
      (addresses (no_such ∷ taken ∷ []))
      (record { answers = offers_answered (no_such ∷ taken ∷ []); calls = [] })).0
    ≡ verdict (offer_codes (no_such ∷ taken ∷ []))
unfolding is_valid_envelope_address any unsafe_in_path reply_line
accept_recipients-verdict_example =
    accept_recipients-verdict no_such (taken ∷ []) [] ((refl, refl), ((refl, refl), tt))

received-dot_stuffed_for_data_example :
    received (split_crlf (dot_stuffed_for_data (codes "a\r\n.b") ++ codes "QUIT\r\n"))
    ≡ some (with_crlf (codes "a\r\n.b"), split_crlf (codes "QUIT\r\n"))
received-dot_stuffed_for_data_example =
    received-dot_stuffed_for_data (codes "a\r\n.b") (codes "QUIT\r\n")
