-- ===== src/Sync/Supervisor.antt =====
-- `SyncSupervisor` of crates/lagoon-api/src/sync/mod.rs: the loops of the accounts and the handles by
-- which they are stopped. A handle says whether its loop has finished; inserting over the handle of a
-- loop that still runs detaches that loop, as dropping a `JoinHandle` does.
pub mod Loops
use lagoon_email.Prelude.{
  ℕ, suc, Bool, true, false, not, ◌&&◌, Option, none, some, List, [], ◌∷◌, ◌++◌, ◌==◌,
  if◌then◌else◌,
}

pub record Supervisor : Type 0 where
  pub tasks : List (ℕ × Bool)
  pub detached : List ℕ

unfoldable pub new : Supervisor
new = record { tasks = []; detached = [] }

-- `tasks.get(&account_id).is_some_and(|task| !task.is_finished())`
unfoldable pub is_running : ℕ → List (ℕ × Bool) → Bool
is_running a [] = false
is_running a ((b, finished) ∷ tasks) = if b == a then not finished else is_running a tasks

unfoldable pub insert_task : ℕ → List (ℕ × Bool) → List (ℕ × Bool)
insert_task a [] = (a, false) ∷ []
insert_task a ((b, finished) ∷ tasks) =
    if b == a then (a, false) ∷ tasks else (b, finished) ∷ insert_task a tasks

-- `spawn_loop` and `tasks.insert`
unfoldable pub spawn : ℕ → Supervisor → Supervisor
spawn a s = record {
  tasks = insert_task a s.tasks;
  detached = if is_running a s.tasks then a ∷ s.detached else s.detached;
}

unfoldable pub start_one : (ℕ → Bool) → ℕ → Supervisor → Supervisor
start_one has_provider a s =
    if has_provider a then (if is_running a s.tasks then s else spawn a s) else s

unfoldable pub start_if : (ℕ → Bool) → ℕ → Supervisor → Supervisor
start_if has_provider a s = if has_provider a then spawn a s else s

unfoldable pub start_each : (ℕ → Bool) → List ℕ → Supervisor → Supervisor
start_each has_provider [] s = s
start_each has_provider (a ∷ rest) s = start_each has_provider rest (start_if has_provider a s)

-- The accounts are those of the store; `none` where it cannot be read.
unfoldable pub start_all : (ℕ → Bool) → Option (List ℕ) → Supervisor → Supervisor
start_all has_provider none s = s
start_all has_provider (some accounts) s = start_each has_provider accounts s

-- every handle is taken out and aborted
unfoldable pub stop : Supervisor → Supervisor
stop s = record s { tasks = [] }

unfoldable pub finish_task : ℕ → List (ℕ × Bool) → List (ℕ × Bool)
finish_task a [] = []
finish_task a ((b, finished) ∷ tasks) =
    if b == a then (b, true) ∷ tasks else (b, finished) ∷ finish_task a tasks

-- The loop of an account breaks, on `AfterRound::Stop`.
unfoldable pub end_loop : ℕ → Supervisor → Supervisor
end_loop a s = record s { tasks = finish_task a s.tasks }
