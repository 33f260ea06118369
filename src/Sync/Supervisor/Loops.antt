-- ===== src/Sync/Supervisor/Loops.antt =====
-- How many loops run for an account.
use lagoon_email.Prelude.{
  ℕ, suc, ◌+◌, ◌≤◌, ◌≡◌, ◌≢◌, refl, Bool, true, false, some, List, [], ◌∷◌, ◌==◌, if◌then◌else◌,
  arith,
}
use lagoon_email.Sync.Supervisor.{
  Supervisor, new, is_running, insert_task, spawn, start_one, start_if, start_each, start_all, stop,
  finish_task, end_loop,
}

abbrev pub count : ℕ → List ℕ → ℕ
count a [] = 0
count a (b ∷ bs) = let rest = count a bs in if b == a then suc rest else rest

-- the loops that run for `a`, with or without a handle
abbrev pub loops : ℕ → Supervisor → ℕ
loops a s = (if is_running a s.tasks then 1 else 0) + count a s.detached

is_running-insert :
    (a b : ℕ) (tasks : List (ℕ × Bool))
    → is_running b (insert_task a tasks) ≡ (if a == b then true else is_running b tasks)
unfolding is_running insert_task
is_running-insert a b [] = ground arith
is_running-insert a b ((c, finished) ∷ tasks) = ground (arith, is_running-insert a b tasks)

is_running-finish :
    (a b : ℕ) (tasks : List (ℕ × Bool))
    → is_running b (finish_task a tasks) ≡ (if a == b then false else is_running b tasks)
unfolding is_running finish_task
is_running-finish a b [] = ground arith
is_running-finish a b ((c, finished) ∷ tasks) = ground (arith, is_running-finish a b tasks)

-- Starting an account that has a provider leaves exactly one loop for it if there was at most one,
-- also where an earlier loop has finished, and without a provider nothing changes. The loops of another
-- account do not change, and no loop loses its handle.
pub start_one-loops :
    (has_provider : ℕ → Bool) (a b : ℕ) (s : Supervisor)
    → loops a s ≤ 1
    → s.detached ≡ []
    → a ≢ b
    → (loops a (start_one has_provider a s) ≡ (if has_provider a then 1 else loops a s))
      × (loops b (start_one has_provider a s) ≡ loops b s)
      × ((start_one has_provider a s).detached ≡ [])
unfolding start_one spawn
start_one-loops has_provider a b s one kept apart = (
  ground (arith, is_running-insert a a s.tasks),
  ground (arith, is_running-insert a b s.tasks),
  ground arith,
)

start_if-loops :
    (has_provider : ℕ → Bool) (x : ℕ) (xs : List ℕ) (s : Supervisor)
    → ((a : ℕ) → loops a s + count a (x ∷ xs) ≤ 1)
    → s.detached ≡ []
    → ((a : ℕ) → loops a (start_if has_provider x s) + count a xs ≤ 1)
      × ((start_if has_provider x s).detached ≡ [])
unfolding start_if spawn
start_if-loops has_provider x xs s few kept =
    (λ a. ground (arith, few a, few x, is_running-insert x a s.tasks), ground (arith, few x))

start_each-loops :
    (has_provider : ℕ → Bool) (accounts : List ℕ) (s : Supervisor)
    → ((a : ℕ) → loops a s + count a accounts ≤ 1)
    → s.detached ≡ []
    → ((a : ℕ) → loops a (start_each has_provider accounts s) ≤ 1)
      × ((start_each has_provider accounts s).detached ≡ [])
unfolding start_each
start_each-loops has_provider [] s few kept = (λ a. omega (arith, few a), kept)
start_each-loops has_provider (x ∷ xs) s few kept =
    let (fewer, still) = start_if-loops has_provider x xs s few kept in
    start_each-loops has_provider xs (start_if has_provider x s) fewer still

-- At startup, with no loop yet and the accounts all different, `start_all` starts at most one loop
-- for each account, and every loop has a handle by which `stop` ends it: after `stop` none is left.
pub start_all-loops :
    (has_provider : ℕ → Bool) (accounts : List ℕ)
    → ((a : ℕ) → count a accounts ≤ 1)
    → ((a : ℕ) → loops a (start_all has_provider (some accounts) new) ≤ 1)
      × ((a : ℕ) → loops a (stop (start_all has_provider (some accounts) new)) ≡ 0)
unfolding start_all stop new
start_all-loops has_provider accounts different =
    let (few, kept) =
      start_each-loops has_provider accounts new
        (λ a. unfold is_running new in omega (arith, different a)) (unfold new in refl) in
    (few, λ a. rw kept (unfold is_running in refl))

-- A loop that ended can be started again.
pub end_loop-start_one :
    (has_provider : ℕ → Bool) (a : ℕ) (s : Supervisor)
    → has_provider a ≡ true
    → s.detached ≡ []
    → (loops a (end_loop a s) ≡ 0) × (loops a (start_one has_provider a (end_loop a s)) ≡ 1)
unfolding end_loop start_one spawn
end_loop-start_one has_provider a s on kept =
    ground (arith, is_running-finish a a s.tasks, is_running-insert a a (finish_task a s.tasks))
