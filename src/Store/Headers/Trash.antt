-- ===== src/Store/Headers/Trash.antt =====
-- Emptying the trash: `trashed_count` and `delete_trashed_rows` of crates/lagoon-api/src/store/write.rs.
use lagoon_email.Prelude.{
  ℕ, ◌≡◌, ◌≢◌, refl, ap, Bool, not, ◌&&◌, List, [], ◌∷◌, ok, ◌==◌, arith, filter, length,
}
use lagoon_email.Store.Table.{Header, Db, Exec, statement, query}
use lagoon_email.Store.Actions.Claim.{steady}

abbrev pub is_trashed : ℕ → Header → Bool
is_trashed a h = h.account_id == a && h.is_deleted

unfoldable pub trashed_count : ℕ → Exec ℕ
trashed_count a = query (λ db. length (filter (is_trashed a) db.headers))

-- the number of rows that went away comes back
unfoldable pub delete_trashed_rows : ℕ → Exec ℕ
delete_trashed_rows a = statement (λ db. (
  length (filter (is_trashed a) db.headers),
  record db { headers = filter (λ h. not (is_trashed a h)) db.headers },
))

none_left :
    (a : ℕ) (rows : List Header)
    → length (filter (is_trashed a) (filter (λ h. not (is_trashed a h)) rows)) ≡ 0
unfolding filter
none_left a [] = refl
none_left a (h ∷ hs) = ground (arith, none_left a hs)

others_kept :
    (a b : ℕ) (rows : List Header)
    → a ≢ b
    → filter (λ h. h.account_id == b) (filter (λ h. not (is_trashed a h)) rows)
      ≡ filter (λ h. h.account_id == b) rows
unfolding filter
others_kept a b [] apart = refl
others_kept a b (h ∷ hs) apart = ground (arith, others_kept a b hs apart)

untrashed_kept :
    (a : ℕ) (rows : List Header)
    → filter (λ h. not h.is_deleted) (filter (λ h. not (is_trashed a h)) rows)
      ≡ filter (λ h. not h.is_deleted) rows
unfolding filter
untrashed_kept a [] = refl
untrashed_kept a (h ∷ hs) = ground (arith, untrashed_kept a hs)

-- On a store whose statements do not fail, emptying the trash of an account reports as many rows as
-- were counted, leaves none to count, and keeps the rows of another account and every row that is not
-- in the trash, in order.
pub delete_trashed_rows-trashed_count :
    (a b : ℕ) (db : Db)
    → a ≢ b
    → ((delete_trashed_rows a (steady db)).0 ≡ (trashed_count a (steady db)).0)
      × ((trashed_count a (delete_trashed_rows a (steady db)).1).0 ≡ ok 0)
      × (filter (λ h. h.account_id == b) (delete_trashed_rows a (steady db)).1.db.headers
          ≡ filter (λ h. h.account_id == b) db.headers)
      × (filter (λ h. not h.is_deleted) (delete_trashed_rows a (steady db)).1.db.headers
          ≡ filter (λ h. not h.is_deleted) db.headers)
unfolding delete_trashed_rows trashed_count statement query
delete_trashed_rows-trashed_count a b db apart = (
  refl,
  ap (λ n. ok n) (none_left a db.headers),
  others_kept a b db.headers apart,
  untrashed_kept a db.headers,
)
