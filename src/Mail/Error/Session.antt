-- ===== src/Mail/Error/Session.antt =====
-- Which failures leave the session usable, and that no failure carries text of the server.
use lagoon_email.Prelude.{Text, ◌≡◌, refl, Bool, true, false, none, arith, ◌↔◌, ◌⊎◌, inl, inr}
use lagoon_email.Mail.Error.{
  TransportError, ErrorKind, Channel, is_auth_failed, is_message_verdict, to_mail, from_io,
  is_timed_out, timed_out, malformed, io, tls, closed, not_connected, would_block, timed_out_kind,
  unexpected_eof, other_kind,
}

abbrev pub is_malformed : TransportError → Bool
is_malformed (malformed m) = true
is_malformed _ = false

-- Of the failures of the transport, only a malformed frame counts as a verdict about the message; none
-- is a refusal of the credentials and none has a protocol status.
pub to_mail_verdict :
    (c : Channel) (e : TransportError)
    → (is_message_verdict (to_mail c e) ≡ is_malformed e)
      × (is_auth_failed (to_mail c e) ≡ false)
      × ((to_mail c e).status ≡ none)
unfolding to_mail is_message_verdict is_auth_failed
to_mail_verdict c timed_out = (refl, refl, refl)
to_mail_verdict c closed = (refl, refl, refl)
to_mail_verdict c not_connected = (refl, refl, refl)
to_mail_verdict c (tls m) = (refl, refl, refl)
to_mail_verdict c (malformed m) = (refl, refl, refl)
to_mail_verdict c (io k) = (refl, refl, refl)

-- No text that a transport reports reaches a mail failure: two reports of one class give one failure.
-- A wait of the socket that expired, in either of the two kinds that systems report, is a timeout of
-- the channel, and no other kind is.
pub to_mail_hides_text :
    (c : Channel) (m m' : Text) (k k' : ErrorKind)
    → (to_mail c (malformed m) ≡ to_mail c (malformed m'))
      × (to_mail c (tls m) ≡ to_mail c (tls m'))
      × (to_mail c (io k) ≡ to_mail c (io k'))
      × (is_timed_out (from_io k) ≡ true ↔ (k ≡ would_block) ⊎ (k ≡ timed_out_kind))
unfolding to_mail is_timed_out from_io
to_mail_hides_text c m m' k k' = (refl, refl, refl, kinds k)
  where
    kinds :
        (k : ErrorKind)
        → (is_timed_out (from_io k) ≡ true) ↔ ((k ≡ would_block) ⊎ (k ≡ timed_out_kind))
    kinds unexpected_eof = (λ e. cc, λ e. ground arith)
    kinds would_block = (λ e. inl refl, λ e. refl)
    kinds timed_out_kind = (λ e. inr refl, λ e. refl)
    kinds (other_kind n) = (λ e. cc, λ e. ground arith)
