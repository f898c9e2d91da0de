-- ===== src/Cancel.antt =====
-- src/osm_geocoder/tools/_osm_tools/cancellation.py: a child process that is polled, and killed with
-- its group when the work is cancelled.
pub mod Stops
use fwh_osm.Prelude.{
  ℕ, zero, suc, Bool, true, false, Option, none, some, List, [], ◌∷◌, ◌++◌, if◌then◌else◌, is_some,
}
use fwh_osm.Prelude.Int.{ℤ, pos, eqb_ℤ}
use fwh_osm.Prelude.Text.{Text}

pub data Signal : Type 0 where
  sigterm sigkill : Signal

-- What a signal to the group does, up to the end of the grace period.
pub data Effect : Type 0 where
  not_ours : Effect
  survives : Effect
  dies : ℤ → Effect

-- The child: its exit code, if it ends within the poll of a turn; whether an exception that is not
-- caught, as a `KeyboardInterrupt`, comes in the turn while the child still runs, in the wait or in
-- the call of the predicate; its answer to a signal; and its exit code when it is waited for without
-- polling.
pub record Child : Type 0 where
  pub ends : ℕ → Option ℤ
  pub interrupts : ℕ → Bool
  pub effect : Signal → Effect
  pub blocking : ℤ

-- One call of the predicate: an exception, no reason, or a reason.
pub data Check : Type 0 where
  raised no_reason : Check
  reason : Text → Check

-- The predicate of the thread, by the number of the call.
abbrev pub Predicate : Type 0
Predicate = Option (ℕ → Check)

-- The exit code that `poll` gives, and the signals that were sent.
pub record Process : Type 0 where
  pub returncode : Option ℤ
  pub signals : List Signal

pub data Outcome : Type 0 where
  completed : Outcome
  failed : ℤ → Outcome
  cancelled : Text → Outcome
  interrupted : Outcome

-- How the `try` block is left.
pub data Exit : Type 0 where
  ended : ℤ → Exit
  reported : Text → Exit
  escaped : Exit

unfoldable pub of_check : Check → Option Text
of_check raised = none
of_check no_reason = none
of_check (reason why) = some why

-- `cancelled_reason()`: never raises
unfoldable pub cancelled_reason : Predicate → ℕ → Option Text
unfolding of_check
cancelled_reason none k = none
cancelled_reason (some check) k = of_check (check k)

unfoldable pub sent : Signal → Process → Process
sent s p = record p { signals = p.signals ++ s ∷ [] }

-- One round of `_terminate_group`, with what comes behind it.
unfoldable pub after_signal : Signal → Effect → (Process → Process) → Process → Process
unfolding sent
after_signal s not_ours next p = p
after_signal s survives next p = next (sent s p)
after_signal s (dies rc) next p = record (sent s p) { returncode = some rc }

unfoldable pub try_signal : Child → Signal → (Process → Process) → Process → Process
unfolding after_signal
try_signal child s next p =
    let signalled = after_signal s (child.effect s) next p in
    if is_some p.returncode then p else signalled

unfoldable pub terminate_group : Child → Process → Process
unfolding try_signal
terminate_group child p = try_signal child sigterm (λ q. try_signal child sigkill (λ r. r) q) p

-- The `finally`, for every exit: a child that still runs is terminated.
unfoldable pub finally_terminate : Child → Process → Process
unfolding terminate_group
finally_terminate child p = if is_some p.returncode then p else terminate_group child p

unfoldable pub of_code : ℤ → Outcome
of_code rc = if eqb_ℤ rc (pos 0) then completed else failed rc

-- The loop `while True`, from turn `k` on; the predicate was called once before it.
unfoldable pub poll_from : Child → (ℕ → Check) → (fuel k : ℕ) → Process → Option (Exit × Process)
unfolding of_check terminate_group
poll_from child check zero k p = none
poll_from child check (suc fuel) k p =
    let later = poll_from child check fuel (suc k) p in
    elim (child.ends k) [
      | some rc ↦ some (ended rc, record p { returncode = some rc })
      | none ↦ elim (child.interrupts k) [
        | true ↦ some (escaped, p)
        | false ↦ elim (of_check (check (suc k))) [
          | some why ↦ some (reported why, terminate_group child p)
          | none ↦ later
        ]
      ]
    ]

unfoldable pub outcome_of : Exit → Outcome
unfolding of_code
outcome_of (ended rc) = of_code rc
outcome_of (reported why) = cancelled why
outcome_of escaped = interrupted

abbrev pub new_process : Process
new_process = record { returncode = none; signals = [] }

-- The outcome, and the child if one was started. Without a predicate the wait is that of
-- `subprocess.run`, which also handles an interruption of it.
unfoldable pub start : Child → Predicate → ℕ → Option (Outcome × Process)
unfolding poll_from of_code outcome_of finally_terminate
start child none fuel =
    some (of_code child.blocking, record new_process { returncode = some child.blocking })
start child (some check) fuel = elim (poll_from child check fuel 0 new_process) [
  | none ↦ none
  | some (exit, p) ↦ some (outcome_of exit, finally_terminate child p)
]

unfoldable pub run_cancellable : Child → Predicate → ℕ → Option (Outcome × Option Process)
unfolding start cancelled_reason
run_cancellable child predicate fuel = elim (cancelled_reason predicate 0) [
  | some why ↦ some (cancelled why, none)
  | none ↦ elim (start child predicate fuel) [ none ↦ none | some (o, p) ↦ some (o, some p) ]
]
