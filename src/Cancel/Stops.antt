-- ===== src/Cancel/Stops.antt =====
-- `run_cancellable` leaves no child behind, and stops at the poll that sees the reason.
use fwh_osm.Prelude.{
  false, ℕ, zero, suc, ◌+◌, ◌≤◌, Option, none, some, ◌≡◌, ◌⊎◌, inl, inr, refl, subst, arith,
  if◌then◌else◌, is_some, Option-cases,
}
use fwh_osm.Prelude.Int.{ℤ}
use fwh_osm.Prelude.Text.{Text}
use fwh_osm.Cancel.{
  Signal, sigterm, sigkill, Effect, not_ours, survives, dies, Child, Check, Predicate, Process,
  Outcome, cancelled, reported, outcome_of, of_check, cancelled_reason, sent, after_signal,
  try_signal, terminate_group, finally_terminate, poll_from, new_process, start, run_cancellable,
}

-- The group cannot be signalled, or outlives SIGKILL.
abbrev pub IsUnstoppable : Child → Type 0
IsUnstoppable child =
    (child.effect sigterm ≡ not_ours)
    ⊎ ((child.effect sigkill ≡ not_ours) ⊎ (child.effect sigkill ≡ survives))

IsOver : Child → Process → Type 0
IsOver child p = ((rc : ℤ) × (p.returncode ≡ some rc)) ⊎ IsUnstoppable child

kill-IsOver :
    (child : Child) (e : Effect) (p : Process)
    → child.effect sigkill ≡ e
    → IsOver child (after_signal sigkill e (λ r. r) p)
unfolding after_signal IsOver
kill-IsOver child not_ours p h = inr (inr (inl h))
kill-IsOver child survives p h = inr (inr (inr h))
kill-IsOver child (dies rc) p h = inl (rc, refl)

ended-IsOver :
    (child : Child) (p q : Process) (o : Option ℤ)
    → p.returncode ≡ o
    → IsOver child q
    → IsOver child (if is_some o then p else q)
unfolding IsOver
ended-IsOver child p q none e h = h
ended-IsOver child p q (some rc) e h = inl (rc, e)

try_signal-IsOver :
    (child : Child) (s : Signal) (next : Process → Process) (p : Process)
    → ((q : Process) → IsOver child (after_signal s (child.effect s) next q))
    → IsOver child (try_signal child s next p)
unfolding try_signal
try_signal-IsOver child s next p h = ended-IsOver child p _ p.returncode refl (h p)

term-IsOver :
    (child : Child) (e : Effect) (p : Process)
    → child.effect sigterm ≡ e
    → IsOver child (after_signal sigterm e (λ q. try_signal child sigkill (λ r. r) q) p)
unfolding after_signal IsOver
term-IsOver child not_ours p h = inr (inl h)
term-IsOver child survives p h =
    try_signal-IsOver child sigkill (λ r. r) (sent sigterm p)
      (λ q. kill-IsOver child (child.effect sigkill) q refl)
term-IsOver child (dies rc) p h = inl (rc, refl)

terminate_group-IsOver : (child : Child) (p : Process) → IsOver child (terminate_group child p)
unfolding terminate_group
terminate_group-IsOver child p =
    try_signal-IsOver child sigterm _ p (λ q. term-IsOver child (child.effect sigterm) q refl)

finally-IsOver : (child : Child) (p : Process) → IsOver child (finally_terminate child p)
unfolding finally_terminate
finally-IsOver child p =
    ended-IsOver child p (terminate_group child p) p.returncode refl
      (terminate_group-IsOver child p)

abbrev EndsOver : Child → Option (Outcome × Process) → Type 0
EndsOver child none = Unit
EndsOver child (some (o, p)) = IsOver child p

start-EndsOver :
    (child : Child) (predicate : Predicate) (fuel : ℕ) → EndsOver child (start child predicate fuel)
unfolding start IsOver
start-EndsOver child none fuel = inl (child.blocking, refl)
start-EndsOver child (some check) fuel =
    elim (Option-cases (poll_from child check fuel 0 new_process)) [
      | inl out_of_fuel ↦ rw (start, out_of_fuel) tt
      | inr ((exit, p), left) ↦ rw (start, left) (finally-IsOver child p)
    ]

abbrev LeavesNone : Child → Option (Outcome × Option Process) → Type 0
LeavesNone child none = Unit
LeavesNone child (some (o, none)) = Unit
LeavesNone child (some (o, some p)) = IsOver child p

run_cancellable-LeavesNone :
    (child : Child) (predicate : Predicate) (fuel : ℕ)
    → LeavesNone child (run_cancellable child predicate fuel)
unfolding run_cancellable
run_cancellable-LeavesNone child predicate fuel =
    elim (Option-cases (cancelled_reason predicate 0)) [
      | inr (why, stop) ↦ rw (stop, run_cancellable) tt
      | inl go_on ↦
          let over = start-EndsOver child predicate fuel in
          elim (Option-cases (start child predicate fuel)) [
            | inl out_of_fuel ↦ rw (go_on, run_cancellable) (rw out_of_fuel tt)
            | inr ((o, p), ended) ↦
                rw (go_on, run_cancellable) (rw ended (subst (EndsOver child) ended over))
          ]
    ]

-- However `run_cancellable` ends, with a result, a failure, a cancellation, or an exception that comes
-- in while it polls, a child that it started has ended, unless its group could not be signalled or
-- outlived SIGKILL.
pub run_cancellable_reaps :
    (child : Child) (predicate : Predicate) (fuel : ℕ) (o : Outcome) (p : Process)
    → run_cancellable child predicate fuel ≡ some (o, some p)
    → ((rc : ℤ) × (p.returncode ≡ some rc)) ⊎ IsUnstoppable child
unfolding IsOver
run_cancellable_reaps child predicate fuel o p e =
    subst (LeavesNone child) e (run_cancellable-LeavesNone child predicate fuel)

-- While the child runs and nothing interrupts the loop, a reason that is reported behind turn `k` ends
-- it there.
poll_from-stops :
    (child : Child) (check : ℕ → Check) (k : ℕ) (why : Text) (d : ℕ) (p : Process)
    → ((j : ℕ) → child.ends j ≡ none)
    → ((j : ℕ) → j ≤ d + k → child.interrupts j ≡ false)
    → ((j : ℕ) → j ≤ d + k → of_check (check j) ≡ none)
    → of_check (check (suc (d + k))) ≡ some why
    → poll_from child check (suc d) k p ≡ some (reported why, terminate_group child p)
unfolding poll_from
poll_from-stops child check k why zero p runs calm quiet stop =
    let now : of_check (check (suc k)) ≡ some why =
      subst (λ j. of_check (check (suc j)) ≡ some why) (omega arith) stop in
    rw (runs k, poll_from) (rw (calm k (omega arith)) (rw now refl))
poll_from-stops child check k why (suc d) p runs calm quiet stop =
    let e =
      poll_from-stops child check (suc k) why d p runs (λ j h. calm j (omega arith))
        (λ j h. quiet j (omega arith))
        (subst (λ j. of_check (check (suc j)) ≡ some why) (omega arith) stop) in
    rw (runs k, poll_from) (rw (calm k (omega arith)) (rw (quiet (suc k) (omega arith)) e))

-- While the child runs on and no exception comes in, a reason that the predicate first gives at its
-- call `k + 1` cancels the work there: `k + 1` polls are enough for `run_cancellable` to end with that
-- reason.
pub run_cancellable_stops :
    (child : Child) (check : ℕ → Check) (k : ℕ) (why : Text)
    → ((j : ℕ) → child.ends j ≡ none)
    → ((j : ℕ) → j ≤ k → child.interrupts j ≡ false)
    → ((j : ℕ) → j ≤ k → of_check (check j) ≡ none)
    → of_check (check (suc k)) ≡ some why
    → (q : Process) × (run_cancellable child (some check) (suc k) ≡ some (cancelled why, some q))
unfolding run_cancellable start cancelled_reason outcome_of
run_cancellable_stops child check k why runs calm quiet stop =
    let e =
      poll_from-stops child check 0 why k new_process runs (λ j h. calm j (omega arith))
        (λ j h. quiet j (omega arith))
        (subst (λ j. of_check (check (suc j)) ≡ some why) (omega arith) stop) in
    (
      finally_terminate child (terminate_group child new_process),
      rw (quiet 0 (omega arith), run_cancellable) (rw (start, e) refl),
    )
