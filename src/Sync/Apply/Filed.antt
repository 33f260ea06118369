-- ===== src/Sync/Apply/Filed.antt =====
-- What `SyncEngine::apply` does to the rows of archived, trashed and sent mail.
use lagoon_email.Prelude.{
  ℕ, Text, text_eq, text_eq_iff, ◌≡◌, Bool, true, false, ◌&&◌, List, [], ◌∷◌, ◌++◌, arith, map, All,
  filter, any, Bool-cases, inl, inr, Option,
}
use mathlib.Core.Path.{ap₂}
use lagoon_email.Store.Table.{Header, SyncState, Store, update_where}
use lagoon_email.Store.Headers.{NewHeader, BodyKey, keyed, is_live, insert_or_update}
use lagoon_email.Store.Rows.{any-filter, any-update_where, any-append}
use lagoon_email.Sync.ChangeSet.{MailChangeSet}
use lagoon_email.Sync.Apply.{apply}
use lagoon_email.Sync.Apply.Carry.{Carried, apply-Keeps}

-- the message is in the store, and none of its rows is in the inbox
pub record IsFiled (a : ℕ) (r : Text) (rows : List Header) : Type 0 where
  pub there : any (keyed a r) rows ≡ true
  pub filed : any (λ h. keyed a r h && is_live a h) rows ≡ false

module _ {A : Type 0} (q : A → Bool) where
  none-filter : (p : A → Bool) (xs : List A) → any q xs ≡ false → any q (filter p xs) ≡ false
  unfolding any filter
  none-filter p [] h = h
  none-filter p (x ∷ xs) h = ground (arith, none-filter p xs)

  none-update_where :
      (p : A → Bool) (f : A → A) (xs : List A)
      → ((x : A) → q x ≡ false → q (f x) ≡ false)
      → any q xs ≡ false
      → any q (update_where p f xs) ≡ false
  unfolding any update_where
  none-update_where p f [] stable h = h
  none-update_where p f (x ∷ xs) stable h =
      ground (arith, stable x, none-update_where p f xs stable)

  none_last : (xs : List A) (y : A) → q y ≡ false → any q xs ≡ false → any q (xs ++ y ∷ []) ≡ false
  unfolding any
  none_last [] y hy h = ground arith
  none_last (x ∷ xs) y hy h = ground (arith, none_last xs y hy)

  -- where `k` holds of no row that `q` accepts, the rows that it accepts are spared
  any-filter_none :
      (k p : A → Bool) (xs : List A)
      → ((x : A) → q x ≡ true → k x ≡ false → p x ≡ true)
      → any (λ x. q x && k x) xs ≡ false
      → any q xs ≡ true
      → any q (filter p xs) ≡ true
  unfolding any filter
  any-filter_none k p [] spare n h = h
  any-filter_none k p (x ∷ xs) spare n h = ground (arith, spare x, any-filter_none k p xs spare)

module _ (a : ℕ) (r : Text) where
  abbrev Elsewhere : Text → Type 0
  Elsewhere r' = text_eq r' r ≡ false

  live-Elsewhere :
      (rows : List Header)
      → any (λ h. keyed a r h && is_live a h) rows ≡ false
      → All Elsewhere (map (λ h. h.remote_id) (filter (is_live a) rows))
  unfolding any filter
  live-Elsewhere [] h = tt
  live-Elsewhere (x ∷ xs) h = elim (Bool-cases (is_live a x)) [
    | inl live ↦ rw live (ground arith, live-Elsewhere xs (ground arith))
    | inr filed ↦ rw filed (live-Elsewhere xs (ground arith))
  ]

  -- a message that no row holds is not the one that some row holds
  unheld_apart :
      (b : ℕ) (q : Text) (rows : List Header)
      → b ≡ a
      → any (keyed b q) rows ≡ false
      → any (keyed a r) rows ≡ true
      → text_eq q r ≡ false
  unheld_apart b q rows e absent held = elim (Bool-cases (text_eq q r)) [
    | inl same ↦ cc (ap₂ (λ x y. any (keyed x y) rows) e ((text_eq_iff q r).0 same))
    | inr apart ↦ apart
  ]

  upsert-IsFiled :
      (new : NewHeader) (snippet : Option Text)
      → new.account_id ≡ a
      → (rows : List Header) → IsFiled a r rows
      → IsFiled a r (insert_or_update new snippet rows)
  unfolding insert_or_update
  upsert-IsFiled new snippet e rows f =
      elim (Bool-cases (any (keyed new.account_id new.remote_id) rows)) [
        | inl old ↦ rw old (record {
          there = any-update_where (keyed a r) _ _ rows (λ h k. k) f.there;
          filed = none-update_where _ _ _ rows (λ h k. k) f.filed;
        })
        | inr fresh ↦ rw fresh (record {
          there = any-append (keyed a r) rows _ f.there;
          filed =
              none_last _ rows _ (rw (unheld_apart _ _ rows e fresh f.there) (ground arith))
                f.filed;
        })
      ]

  carried : (changes : MailChangeSet) → Carried a changes Elsewhere (IsFiled a r)
  carried changes = record {
    wipe = λ _ rows f. record {
      there =
          any-filter_none (keyed a r) (is_live a) _ rows (λ h k l. ground arith) f.filed f.there;
      filed = none-filter _ _ rows f.filed;
    };
    upsert = upsert-IsFiled;
    move_uid = λ r' uid rows f. record {
      there = any-update_where (keyed a r) _ _ rows (λ h k. k) f.there;
      filed = none-update_where _ _ _ rows (λ h k. k) f.filed;
    };
    live = λ rows f. live-Elsewhere rows f.filed;
    archive = λ r' q rows f. record {
      there = any-update_where (keyed a r) _ _ rows (λ h k. k) f.there;
      filed = none-update_where _ _ _ rows (λ h k. ground arith) f.filed;
    };
    trash = λ r' q rows f. record {
      there = any-update_where (keyed a r) _ _ rows (λ h k. k) f.there;
      filed = none-update_where _ _ _ rows (λ h k. ground arith) f.filed;
    };
    delete = λ r' q inbox e may rows f. record {
      there =
          any-filter (keyed a r) _ rows
            (λ h k. ground (arith, text_eq_iff h.remote_id r, text_eq_iff h.remote_id r')) f.there;
      filed = none-filter _ _ rows f.filed;
    };
  }

-- Mail that the user archived, trashed or sent stays where it is through a round, whatever the
-- provider reports and whichever statement fails: a message with rows in the store, none of them in
-- the inbox, still has a row afterwards, and none of its rows comes back into the inbox.
pub apply-IsFiled :
    (a : ℕ) (r : Text) (key : Option BodyKey) (now : Text) (changes : MailChangeSet)
    (previous : SyncState) (s : Store)
    → IsFiled a r s.db.headers
    → IsFiled a r (apply a key now changes previous s).1.db.headers
apply-IsFiled a r key now changes previous s filed =
    (apply-Keeps (carried a r changes) key now previous).at s filed
