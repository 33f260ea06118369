-- ===== src/Tests/Send.antt =====
-- The send route on a small store.
use lagoon_email.Prelude.{
  Text, codes, text_eq, some, none, [], ◌∷◌, ok, err, ◌≡◌, refl, ◌+◌, ◌↔◌, false, any, find, trim,
  trim_start,
}
use lagoon_email.Store.Headers.{NewHeader}
use lagoon_email.Store.Actions.Claim.{steady}
use lagoon_email.Api.Send.{
  Delivery, Desk, deliver, accepted, refused, unreachable, too_large, failed_response, send_error,
}
use lagoon_email.Api.Send.Replay.{deliver-deliver, is_about_mail, failed_response-send_error}
use lagoon_email.Api.Send.Recipients.{
  AllDeliverable, addresses_from_string-AllDeliverable, addresses_from_string, split_addresses,
  split_chars, split_char, trimmed,
}
use lagoon_email.Tests.Store.{two_accounts}

abbrev copy_header : Text → NewHeader
copy_header id = record {
  account_id = 1;
  remote_id = id;
  thread_id = id;
  from_address = codes "a@b.example";
  from_name = none;
  subject = some (codes "hi");
  snippet = some (codes "hi");
  received_at = codes "now";
  list_unsubscribe = false;
  message_id_header = some id;
  in_reply_to = none;
  references = none;
  unsubscribe_links = codes "[]";
  remote_uid = none;
}

abbrev first_send : Delivery
first_send = record {
  account_id = 1;
  request_id = some (codes "r1");
  answers_to = none;
  fresh_id = codes "sent:1";
  copy = copy_header;
  key = λ t. ok t;
  now = 1000;
}

abbrev replayed : Delivery
replayed = record first_send { now = 9_000_000 }

abbrev desk : Desk
desk = record { store = steady two_accounts; deliveries = 0 }

deliver-deliver_example :
    (((deliver first_send (ok (some (codes "<m@lagoon>"))) desk).1).deliveries ≡ 0 + 1)
    × (deliver replayed
          (err (unreachable (codes "down")))
          (deliver first_send (ok (some (codes "<m@lagoon>"))) desk).1
        ≡ (
          accepted (some (codes "<m@lagoon>")),
          (deliver first_send (ok (some (codes "<m@lagoon>"))) desk).1,
        ))
unfolding find any
deliver-deliver_example =
    deliver-deliver first_send replayed (codes "r1") (codes "<m@lagoon>") two_accounts 0
      (err (unreachable (codes "down"))) refl refl refl refl refl

failed_response-send_error_example :
    (failed_response (send_error (too_large (codes "x"))).1
      ≡ refused (send_error (too_large (codes "x"))).0 (send_error (too_large (codes "x"))).1)
    ↔ (is_about_mail (too_large (codes "x")) ≡ false)
failed_response-send_error_example = failed_response-send_error (too_large (codes "x"))

addresses_from_string-AllDeliverable_example :
    AllDeliverable (addresses_from_string (codes "\"Z, W\" <w@x.example>, b@y.example"))
addresses_from_string-AllDeliverable_example =
    addresses_from_string-AllDeliverable (codes "\"Z, W\" <w@x.example>, b@y.example")

-- A comma between quotation marks belongs to the name.
two_recipients :
    split_addresses (codes "\"Z, W\" <w@x>, b@y") ≡ codes "\"Z, W\" <w@x>" ∷ codes "b@y" ∷ []
unfolding split_addresses split_chars split_char trimmed trim trim_start text_eq
two_recipients = refl
