-- ===== src/Tests/Cancel.antt =====
-- A child that runs on, and a predicate that gives a reason at its third call.
use fwh_osm.Prelude.{
  ℕ, zero, suc, ◌≤◌, none, some, false, true, [], ◌∷◌, ◌≡◌, ◌⊎◌, refl, arith, if◌then◌else◌, ◌==◌,
}
use fwh_osm.Prelude.Int.{ℤ, pos, negsuc}
use fwh_osm.Prelude.Text.{Text, codes}
use fwh_osm.Cancel.{
  sigterm, sigkill, survives, dies, Child, Check, no_reason, reason, Process, cancelled,
  interrupted, outcome_of, of_check, cancelled_reason, sent, after_signal, try_signal,
  terminate_group, finally_terminate, poll_from, start, run_cancellable,
}
use fwh_osm.Cancel.Stops.{IsUnstoppable, run_cancellable_reaps, run_cancellable_stops}

abbrev stubborn : Child
stubborn = record {
  ends = λ k. none;
  interrupts = λ k. false;
  effect = λ s. elim s [ sigterm ↦ survives | sigkill ↦ dies (negsuc 8) ];
  blocking = pos 0;
}

abbrev why : Text
why = codes "terminated"

abbrev third : ℕ → Check
third zero = no_reason
third (suc zero) = no_reason
third (suc (suc _)) = reason why

abbrev killed : Process
killed = record { returncode = some (negsuc 8); signals = sigterm ∷ sigkill ∷ [] }

-- An interruption in the second turn.
abbrev broken_off : Child
broken_off = record stubborn { interrupts = λ k. if k == 1 then true else false }

run_cancellable_reaps_example :
    ((rc : ℤ) × (killed.returncode ≡ some rc)) ⊎ IsUnstoppable broken_off
unfolding run_cancellable start poll_from cancelled_reason of_check finally_terminate outcome_of
    terminate_group try_signal after_signal sent
run_cancellable_reaps_example =
    run_cancellable_reaps broken_off (some third) 2 interrupted killed refl

reason_kills : run_cancellable stubborn (some third) 2 ≡ some (cancelled why, some killed)
unfolding run_cancellable start poll_from cancelled_reason of_check finally_terminate outcome_of
    terminate_group try_signal after_signal sent
reason_kills = refl

quiet : (j : ℕ) → j ≤ 1 → of_check (third j) ≡ none
unfolding of_check
quiet zero h = refl
quiet (suc zero) h = refl
quiet (suc (suc j)) h = absurd (omega arith)

run_cancellable_stops_example :
    (q : Process) × (run_cancellable stubborn (some third) 2 ≡ some (cancelled why, some q))
unfolding of_check
run_cancellable_stops_example =
    run_cancellable_stops stubborn third 1 why (λ j. refl) (λ j h. refl) quiet refl
