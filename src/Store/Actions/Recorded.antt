-- ===== src/Store/Actions/Recorded.antt =====
-- What `record_action` of crates/lagoon-api/src/store/write.rs keeps.
use lagoon_email.Prelude.{ℕ, Text, Option, none, some, Bool, true, false, if◌then◌else◌}
use lagoon_email.Store.Table.{Db, Payload}
use lagoon_email.Store.Keeps.{Keeps, Keeps-statement, Keeps-bind, Keeps-pure, Keeps-raise}
use lagoon_email.Store.Actions.{append_action, violates, try_insert, row_id_of, record_action}

module _ {P : Db → Type 0} (a : ℕ) (kind : Text) (payload : Payload)
    (appended : (db : Db) → P db → P (append_action a kind payload db)) where
  try_insert-keeps : (db : Db) → P db → P (try_insert a kind payload db).1
  unfolding try_insert
  try_insert-keeps db h = decided (violates a kind payload db)
    where
      decided :
          (b : Bool)
          → P
              (if◌then◌else◌ {A = Option ℕ × Db} b
                (none, db)
                (some db.next_id, append_action a kind payload db)).1
      decided true = h
      decided false = appended db h

  pub Keeps-record_action : Keeps P (record_action a kind payload)
  unfolding record_action
  Keeps-record_action = Keeps-bind _ _ (Keeps-statement _ try_insert-keeps) returned
    where
      returned : (id : Option ℕ) → Keeps P (row_id_of id)
      returned none = Keeps-raise _
      returned (some id) = Keeps-pure id
