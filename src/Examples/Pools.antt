-- ===== src/Examples/Pools.antt =====
-- Two goroutines on a pool of two keys, and one that destroys a pool of one.
use gopkcs.Prelude.{
  ℕ, ◌+◌, ◌*◌, ◌≤◌, ◌<◌, ◌≡◌, refl, ◌⊎◌, inl, true, false, [], ◌∷◌, arith, ltb, if◌then◌else◌,
  length, count,
}
use gopkcs.Signer.Pool.Concurrent.{
  Step, idle, signing, collecting, returning, System, init, receive, start, collect, turn,
  give_back, finish, Reach, initial, later,
}
use gopkcs.Signer.Pool.Concurrent.Owners.{Owners, Move, Possible, Abstracts}
use gopkcs.Signer.Pool.Concurrent.Refinement.{Reach-refines}
use gopkcs.Signer.Pool.Concurrent.Termination.{Run, stop, step, steps, receipts, run-steps}
use gopkcs.Signer.Pool.Concurrent.Families.{update}
use gopkcs.Signer.Pool.Concurrent.Invariant.{holds, AllDestroyed}
use gopkcs.Signer.Pool.Concurrent.Safety.{
  holds-exclusive, send-free, finished-AllDestroyed, idle-free_full, collecting-progress,
}

-- The first goroutine signs with key 0.
abbrev one_signs : System
one_signs = record {
  free = 1 ∷ [];
  destroyed = λ _. false;
  started = false;
  finished = false;
  pc = update (λ _. idle) 0 (signing 0);
}

abbrev other_starts : System
other_starts = record one_signs { started = true; pc = update one_signs.pc 1 (collecting []) }

-- The second one has key 1 and waits for the other.
abbrev waiting : System
waiting = record other_starts {
  free = [];
  destroyed = update (λ _. false) 1 true;
  pc = update other_starts.pc 1 (collecting (1 ∷ []));
}

waiting-Reach : Reach 2 2 waiting
unfolding init
waiting-Reach =
    later
      (later (later initial (receive 0 0 (1 ∷ []) (omega arith) refl refl))
        (start 1 (omega arith) refl refl))
      (collect 1 1 [] [] (omega arith) refl (omega arith) refl)

holds-exclusive_example : (holds 0 (waiting.pc 1) ≡ 0) × (count 0 waiting.free ≡ 0) × (0 < 2)
holds-exclusive_example =
    holds-exclusive 2 2 waiting waiting-Reach 0 0 1 (omega arith) (omega arith)
      (λ e. omega (arith, e)) (omega arith)

send-free_example : length waiting.free < 2
send-free_example = send-free 2 2 waiting waiting-Reach 0 0 [] (omega arith) (inl refl)

collecting-progress_example :
    (0 < length waiting.free) ⊎ ((j : ℕ) × (k : ℕ) × (j < 2) × (waiting.pc j ≡ signing k))
collecting-progress_example =
    collecting-progress 2 2 waiting waiting-Reach 1 (1 ∷ []) (omega arith) refl (omega arith)

abbrev begun : System
begun = record {
  free = 0 ∷ [];
  destroyed = λ _. false;
  started = true;
  finished = false;
  pc = update (λ _. idle) 0 (collecting []);
}

abbrev taken : System
taken = record begun {
  free = [];
  destroyed = update (λ _. false) 0 true;
  pc = update begun.pc 0 (collecting (0 ∷ []));
}

abbrev turned : System
turned = record taken { pc = update taken.pc 0 (returning (0 ∷ [])) }

abbrev given_back : System
given_back = record turned { free = 0 ∷ []; pc = update turned.pc 0 (returning []) }

abbrev over : System
over = record given_back { finished = true; pc = update given_back.pc 0 idle }

over-Reach : Reach 1 1 over
unfolding init
over-Reach =
    later
      (later
        (later
          (later (later initial (start 0 (omega arith) refl refl))
            (collect 0 0 [] [] (omega arith) refl (omega arith) refl))
          (turn 0 (0 ∷ []) (omega arith) refl refl))
        (give_back 0 0 [] (omega arith) refl (omega arith)))
      (finish 0 (omega arith) refl)

finished-AllDestroyed_example : AllDestroyed 1 over.destroyed
finished-AllDestroyed_example = finished-AllDestroyed 1 1 over over-Reach refl

idle-free_full_example :
    ((x : ℕ) → count x over.free ≡ (if ltb x 1 then 1 else 0)) × (length over.free ≡ 1)
idle-free_full_example =
    idle-free_full 1 1 over over-Reach (λ i h. let first : 0 ≡ i = omega arith in rw (← first) refl)

Reach-refines_example :
    (a : Owners) × Possible 2 a
    × Abstracts 2 waiting a
    × ((t : System) → Step 2 2 waiting t → (b : Owners) × Move 2 a b × Abstracts 2 t b)
Reach-refines_example = Reach-refines 2 2 waiting waiting-Reach

-- The destruction of the pool of one key, from the beginning.
over-Run : Run 1 1 (init 1) over
unfolding init
over-Run = step (start 0 (omega arith) refl refl) (
    step (collect 0 0 [] [] (omega arith) refl (omega arith) refl) (
      step (turn 0 (0 ∷ []) (omega arith) refl refl) (
        step (give_back 0 0 [] (omega arith) refl (omega arith))
          (step (finish 0 (omega arith) refl) stop))))

run-steps_example : steps over-Run ≤ 2 * receipts over-Run + 2 * 1 + 3
run-steps_example = run-steps 1 1 over over-Run
