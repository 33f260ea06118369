-- ===== src/Api/Send/Replay.antt =====
-- One request id, one delivery.
use lagoon_email.Prelude.{
  ℕ, ◌+◌, Text, text_eq, Bool, true, false, Option, none, some, List, Result, ok, err, ◌≡◌, refl,
  arith, ap, ◌∙◌, any, ◌↔◌,
}
use lagoon_email.Store.Table.{
  Db, Store, WriteError, Exec, Header, attempt, continue, lift, ◌>>=◌, execute, statement,
}
use lagoon_email.Store.Accounts.{has_id}
use lagoon_email.Store.Headers.{NewHeader, BodyKey, upsert_header, seal_snippet, insert_or_update}
use lagoon_email.Store.Actions.{complete_send, append_action, send_kind, claim_payload}
use lagoon_email.Store.Actions.Claim.{
  steady, request_row, new_claim, claim_send_fresh, request_row_fresh,
}
use lagoon_email.Store.Actions.Phases.{complete_send-claim_send}
use lagoon_email.Api.Send.{
  ProviderError, auth_failed, message_gone, unreachable, not_configured, protocol, not_found,
  too_large, refused, accepted, send_error, failed_response, save_sent_message, Delivery,
  store_sent_copy, hand_over, on_claim, mark_sent, deliver,
}

-- A failure of the mail itself rather than of its delivery
unfoldable pub is_about_mail : ProviderError → Bool
is_about_mail (not_found m) = true
is_about_mail (too_large m) = true
is_about_mail _ = false

-- A replay of a failed send answers what the first request was told, but for the two failures that are
-- about the mail itself: those are replayed as a failed delivery.
pub failed_response-send_error :
    (e : ProviderError)
    → (failed_response (send_error e).1 ≡ refused (send_error e).0 (send_error e).1)
      ↔ (is_about_mail e ≡ false)
unfolding failed_response send_error is_about_mail text_eq
failed_response-send_error auth_failed = (λ h. refl, λ h. refl)
failed_response-send_error message_gone = (λ h. refl, λ h. refl)
failed_response-send_error (not_configured m) = (λ h. refl, λ h. refl)
failed_response-send_error (not_found m) =
    (λ h. absurd (ground (arith, h)), λ h. absurd (ground (arith, h)))
failed_response-send_error (too_large m) =
    (λ h. absurd (ground (arith, h)), λ h. absurd (ground (arith, h)))
failed_response-send_error (unreachable m) = (λ h. refl, λ h. refl)
failed_response-send_error (protocol m) = (λ h. refl, λ h. refl)

abbrev HeadersOnly : {A : Type 0} → Exec A → Type 0
HeadersOnly m =
    (db : Db) → (hs : List Header) × ((m (steady db)).1 ≡ steady (record db { headers = hs }))

bind-HeadersOnly :
    {A B : Type 0} (m : Exec A) (k : A → Exec B)
    → HeadersOnly m
    → ((a : A) → HeadersOnly (k a))
    → HeadersOnly (m >>= k)
unfolding ◌>>=◌ continue
bind-HeadersOnly {A = A} {B = B} m k qm qk db = settled (m (steady db)) (qm db)
  where
    settled :
        (r : Result WriteError A × Store)
        → (hs : List Header) × (r.1 ≡ steady (record db { headers = hs }))
        → (hs : List Header) × ((continue r.0 k r.1).1 ≡ steady (record db { headers = hs }))
    settled (err e, s) q = q
    settled (ok a, s) (hs, q) =
        let (hs2, e) = qk a (record db { headers = hs }) in (hs2, ap (λ v. (k a v).1) q ∙ e)

seal_snippet-HeadersOnly :
    (snippet : Option Text) (key : BodyKey) → HeadersOnly (seal_snippet snippet (some key))
unfolding seal_snippet
seal_snippet-HeadersOnly none key db = (db.headers, refl)
seal_snippet-HeadersOnly (some text) key db =
    bind-HeadersOnly (lift (key text)) _ (λ db. (db.headers, refl)) (λ _ db. (db.headers, refl)) db

-- Storing the copy changes no table but that of the headers.
save_sent_message-HeadersOnly :
    (h : NewHeader) (key : BodyKey) → HeadersOnly (save_sent_message h key)
unfolding save_sent_message upsert_header execute statement attempt
save_sent_message-HeadersOnly h key =
    bind-HeadersOnly (upsert_header h (some key)) _
      (bind-HeadersOnly (seal_snippet h.snippet (some key)) _
        (seal_snippet-HeadersOnly h.snippet key)
        (λ snippet db. (insert_or_update h snippet db.headers, refl)))
      (λ _.
        bind-HeadersOnly (mark_sent h.account_id h.remote_id) _ (λ db. (_, refl))
          (λ _ db. (db.headers, refl)))

-- the store behind a claim whose mail was sent and stored
abbrev sent_db : ℕ → ℕ → Text → Db → List Header → Db
sent_db now a q db hs = record (append_action a send_kind (claim_payload q now) db) { headers = hs }

deliver-first :
    (d : Delivery) (q p : Text) (db : Db) (n : ℕ)
    → d.request_id ≡ some q
    → request_row d.account_id q db ≡ none
    → any (has_id d.account_id) db.accounts ≡ true
    → (hs : List Header) × (deliver d (ok (some p)) (record { store = steady db; deliveries = n })
        ≡ (
          accepted (some p),
          record {
            store =
                (complete_send db.next_id
                  (some p)
                  d.answers_to
                  (steady (sent_db d.now d.account_id q db hs))).1;
            deliveries = n + 1;
          },
        ))
unfolding deliver hand_over store_sent_copy
deliver-first d q p db n asked absent known =
    let (hs, e) =
      save_sent_message-HeadersOnly (d.copy p) d.key
        (append_action d.account_id send_kind (claim_payload q d.now) db) in
    (hs, rw (asked, claim_send_fresh d.now d.account_id q db absent known, e) refl)

-- On a store whose statements do not fail and for a known account: after a new request id is claimed,
-- its mail sent and the provider has given an id for it, a further request with the same id and account
-- is answered with the provider's id, whenever it comes, and the provider is not asked again.
pub deliver-deliver :
    (d again : Delivery) (q p : Text) (db : Db) (n : ℕ)
    (answer : Result ProviderError (Option Text))
    → d.request_id ≡ some q
    → again.request_id ≡ some q
    → again.account_id ≡ d.account_id
    → request_row d.account_id q db ≡ none
    → any (has_id d.account_id) db.accounts ≡ true
    → (((deliver d (ok (some p)) (record { store = steady db; deliveries = n })).1).deliveries
        ≡ n + 1)
      × (deliver again answer
            (deliver d (ok (some p)) (record { store = steady db; deliveries = n })).1
          ≡ (
            accepted (some p),
            (deliver d (ok (some p)) (record { store = steady db; deliveries = n })).1,
          ))
unfolding deliver hand_over store_sent_copy
deliver-deliver d again q p db n answer asked asked_again same absent known =
    let (hs, e) = deliver-first d q p db n asked absent known in rw e (refl, second hs)
  where
    second :
        (hs : List Header)
        → deliver again answer (record {
          store =
              (complete_send db.next_id
                (some p)
                d.answers_to
                (steady (sent_db d.now d.account_id q db hs))).1;
          deliveries = n + 1;
        })
          ≡ (
            accepted (some p),
            record {
              store =
                  (complete_send db.next_id
                    (some p)
                    d.answers_to
                    (steady (sent_db d.now d.account_id q db hs))).1;
              deliveries = n + 1;
            },
          )
    second hs =
        rw (asked_again, same)
          (ap (on_claim again answer (n + 1)) (
            complete_send-claim_send again.now d.account_id q (sent_db d.now d.account_id q db hs)
              (new_claim d.account_id q d.now db) (request_row_fresh d.now d.account_id q db absent)
              (some p) d.answers_to))
