-- ===== src/Examples/Shared.antt =====
-- Two goroutines with one key: the first is between SignInit and Sign, the second waits.
use gopkcs.Prelude.{ℕ, ◌+◌, ◌*◌, ◌≤◌, ◌≡◌, refl, ◌⊎◌, Bool, true, false, arith}
use gopkcs.Signer.Pool.Concurrent.Families.{update, total}
use gopkcs.Signer.Shared.{
  Keys, KeyStep, all_set_up, fresh, moved, away, sign_call, sign_lock, read_lock, sign_init, flag,
  entered, prepared, initialised, signing,
}
use gopkcs.Signer.Shared.Safety.{Permitted, inside, calls-guarded}
use gopkcs.Signer.Shared.Progress.{KeyRun, stop, step, calls, steps, calls-end}
use gopkcs.Signer.Shared.Waiting.{Rests, GoesOn}

abbrev always : ℕ → Bool
always k = false

abbrev called : Keys
called = record all_set_up { stage = update (λ _. away) 0 (signing 7) }

abbrev both_called : Keys
both_called = record called { stage = update called.stage 1 (signing 7) }

abbrev locked : Keys
locked = record both_called { stage = update both_called.stage 0 (entered 7) }

abbrev read_locked : Keys
read_locked = record locked { stage = update locked.stage 0 (prepared 7 false) }

abbrev operating : Keys
operating = record read_locked {
  stage = update read_locked.stage 0 (initialised 7 false);
  operation = update read_locked.operation 7 true;
}

first_call : KeyStep 2 always all_set_up called
first_call = sign_call 0 7 (omega arith) refl

second_call : KeyStep 2 always called both_called
second_call = sign_call 1 7 (omega arith) refl

first_lock : KeyStep 2 always both_called locked
unfolding total
first_lock = sign_lock 0 7 (omega arith) refl refl

first_read : KeyStep 2 always locked read_locked
unfolding total
first_read = read_lock 0 7 (omega arith) refl refl refl refl

first_init : KeyStep 2 always read_locked operating
first_init = sign_init 0 7 false (omega arith) refl

calls-guarded_example :
    Permitted operating (operating.stage 0)
    × (inside 7 (operating.stage 0) + inside 7 (operating.stage 1) ≤ 1)
    × (flag (operating.session 7) + operating.closes 7 ≡ 1)
calls-guarded_example =
    calls-guarded 2 always operating 0 1 7
      (moved (moved (moved (moved (moved fresh first_call) second_call) first_lock) first_read)
        first_init)
      (omega arith) (omega arith) (λ e. omega (arith, e))

run_to : KeyRun 2 always all_set_up locked
run_to = step first_call (step second_call (step first_lock stop))

calls-end_example : (steps run_to ≤ 6 * calls run_to) × (Rests 2 locked ⊎ GoesOn 2 always locked)
calls-end_example = calls-end 2 always locked run_to
