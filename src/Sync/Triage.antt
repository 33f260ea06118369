-- ===== src/Sync/Triage.antt =====
-- `SyncEngine::triage` of crates/lagoon-api/src/sync/mod.rs: the bounded backlog of mail that waits
-- for the advisor. The model behind the advisor, the advice table and the usage log are parameters.

pub mod Laws
use lagoon_email.Prelude.{
  ℕ, zero, suc, ◌+◌, Text, Bool, true, false, Option, none, some, List, [], ◌∷◌, ◌++◌, length, leb,
  if◌then◌else◌, filter,
}
use lagoon_email.Sync.Backoff.{min_of}
use lagoon_email.Sync.ChangeSet.{RemoteHeader}

abbrev pub triage_per_round : ℕ
triage_per_round = 3

abbrev pub triage_backlog_limit : ℕ
triage_backlog_limit = 200

pub record TriageTarget : Type 0 where
  pub remote_id : Text
  pub from_address : Text
  pub subject : Option Text
  pub snippet : Option Text

unfoldable pub target_of : RemoteHeader → TriageTarget
target_of h = record {
  remote_id = h.remote_id;
  from_address = h.from_address;
  subject = h.subject;
  snippet = h.snippet;
}

pub record Classified : Type 0 where
  pub remote_id : Text
  pub answer : Text

-- What lies behind the advisor in one round. `has_advice` is `none` where the query fails; `stores`
-- and `meters` say whether `advice::upsert_ai` and `usage::record` succeed.
pub record Advisor : Type 0 where
  pub configured : Bool
  pub store_opens : Bool
  pub has_advice : Text → Option Bool
  pub classify : List TriageTarget → List Classified
  pub store_reopens : Bool
  pub stores : Classified → Bool
  pub meters : Classified → Bool

-- The loop that fills the backlog; `false` is its early return.
unfoldable pub fill_backlog :
    (Text → Option Bool) → List RemoteHeader → List TriageTarget → List TriageTarget × Bool
fill_backlog has_advice [] backlog = (backlog, true)
fill_backlog has_advice (h ∷ hs) backlog = elim (leb triage_backlog_limit (length backlog)) [
  | true ↦ (backlog, true)
  | false ↦ elim (has_advice h.remote_id) [
    | none ↦ (backlog, false)
    | some true ↦ fill_backlog has_advice hs backlog
    | some false ↦ fill_backlog has_advice hs (backlog ++ target_of h ∷ [])
  ]
]

module _ {ℓ} {A : Type ℓ} where
  abbrev pub take : ℕ → List A → List A
  take zero xs = []
  take (suc n) [] = []
  take (suc n) (x ∷ xs) = x ∷ take n xs

  abbrev pub drop : ℕ → List A → List A
  drop zero xs = xs
  drop (suc n) [] = []
  drop (suc n) (x ∷ xs) = drop n xs

-- What a round leaves: the backlog, the mail that the model was asked about, the suggestions that
-- were stored, and those whose cost was recorded.
pub record Triaged : Type 0 where
  pub backlog : List TriageTarget
  pub asked : List TriageTarget
  pub stored : List Classified
  pub metered : List Classified

abbrev pub idle : List TriageTarget → Triaged
idle backlog = record { backlog = backlog; asked = []; stored = []; metered = [] }

-- `count` is `TRIAGE_PER_ROUND.min(backlog.len())`, the number of `pop_front`.
unfoldable pub ask : Advisor → ℕ → List TriageTarget → Triaged
ask advisor zero backlog = idle backlog
ask advisor (suc n) backlog =
    let targets = take (suc n) backlog in
    let stored =
      if advisor.store_reopens then filter advisor.stores (advisor.classify targets) else [] in
    record {
      backlog = drop (suc n) backlog;
      asked = targets;
      stored = stored;
      metered = filter advisor.meters stored;
    }

unfoldable pub after_fill : Advisor → List TriageTarget × Bool → Triaged
after_fill advisor (backlog, false) = idle backlog
after_fill advisor (backlog, true) = ask advisor (min_of triage_per_round (length backlog)) backlog

unfoldable pub triage : Option Advisor → List RemoteHeader → List TriageTarget → Triaged
triage none upserts backlog = idle backlog
triage (some advisor) upserts backlog =
    if advisor.configured
    then (if advisor.store_opens
        then after_fill advisor (fill_backlog advisor.has_advice upserts backlog)
        else idle backlog)
    else idle backlog
