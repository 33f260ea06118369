-- ===== src/Sync/Triage/Laws.antt =====
-- The bounds of the advice backlog.
use lagoon_email.Prelude.{
  ℕ, zero, suc, ◌≤◌, Text, Bool, true, false, Option, none, some, List, [], ◌∷◌, ◌++◌, length,
  length-append, arith,
}
use lagoon_email.Sync.Backoff.{min_of}
use lagoon_email.Sync.ChangeSet.{RemoteHeader}
use lagoon_email.Sync.Triage.{
  Advisor, TriageTarget, target_of, fill_backlog, ask, after_fill, triage, take, drop,
  triage_per_round, triage_backlog_limit,
}

fill_bounded :
    (has_advice : Text → Option Bool) (hs : List RemoteHeader) (backlog : List TriageTarget)
    → length backlog ≤ triage_backlog_limit
    → length (fill_backlog has_advice hs backlog).0 ≤ triage_backlog_limit
unfolding fill_backlog
fill_bounded has_advice [] backlog h = h
fill_bounded has_advice (x ∷ xs) backlog h = ground (
  arith,
  fill_bounded has_advice xs backlog,
  fill_bounded has_advice xs (backlog ++ target_of x ∷ []),
  length-append backlog (target_of x ∷ []),
)

module _ {A : Type 0} where
  length-take : (n : ℕ) (xs : List A) → length (take n xs) ≤ n
  length-take zero xs = omega arith
  length-take (suc n) [] = omega arith
  length-take (suc n) (x ∷ xs) = omega (arith, length-take n xs)

  length-drop : (n : ℕ) (xs : List A) → length (drop n xs) ≤ length xs
  length-drop zero xs = omega arith
  length-drop (suc n) [] = omega arith
  length-drop (suc n) (x ∷ xs) = omega (arith, length-drop n xs)

ask_bounds :
    (advisor : Advisor) (n : ℕ) (backlog : List TriageTarget)
    → (length (ask advisor n backlog).asked ≤ n)
      × (length (ask advisor n backlog).backlog ≤ length backlog)
unfolding ask
ask_bounds advisor zero backlog = omega arith
ask_bounds advisor (suc n) backlog = (length-take (suc n) backlog, length-drop (suc n) backlog)

after_fill_bounds :
    (advisor : Advisor) (r : List TriageTarget × Bool)
    → length r.0 ≤ triage_backlog_limit
    → (length (after_fill advisor r).backlog ≤ triage_backlog_limit)
      × (length (after_fill advisor r).asked ≤ triage_per_round)
unfolding after_fill
after_fill_bounds advisor (backlog, false) h = omega (arith, h)
after_fill_bounds advisor (backlog, true) h =
    ground (arith, ask_bounds advisor (min_of triage_per_round (length backlog)) backlog)

-- However many mails a pull brings, the backlog of an account stays within its limit, and one round
-- asks the model about three mails at most.
pub triage_bounds :
    (advisor : Option Advisor) (upserts : List RemoteHeader) (backlog : List TriageTarget)
    → length backlog ≤ triage_backlog_limit
    → (length (triage advisor upserts backlog).backlog ≤ triage_backlog_limit)
      × (length (triage advisor upserts backlog).asked ≤ triage_per_round)
unfolding triage
triage_bounds none upserts backlog h = (h, omega arith)
triage_bounds (some advisor) upserts backlog h = ground (
  arith,
  fill_bounded advisor.has_advice upserts backlog h,
  after_fill_bounds advisor (fill_backlog advisor.has_advice upserts backlog),
)
