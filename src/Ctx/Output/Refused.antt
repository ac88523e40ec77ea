-- ===== src/Ctx/Output/Refused.antt =====
-- twoPassOutput and twoPassOutputNoInput when the module refuses the call.
use gopkcs.Prelude.{
  ℕ, suc, ◌+◌, ◌≡◌, refl, ◌≢◌, inl, inr, false, List, [], ◌∷◌, ◌++◌, arith, ◌==◌, Bool-cases,
  replicate,
}
use gopkcs.Machine.Bytes.{Memory, store}
use gopkcs.Machine.Effects.{
  Slice, World, Env, Outcome, ok, err, code, set_pins, unpinned, with_pinner, new_word, allocate,
  pin, syscall_n,
}
use gopkcs.Arena.{pin_non_null}
use gopkcs.Ctx.Output.{fetch, two_pass_output, two_pass_output_no_input}
use gopkcs.Machine.Laws.{set_pins_own}

-- What a caller sees of a call that the module refuses with `rv`.
pub record Refuses {S : Type 0} (w : World S) (rv : ℕ) (r : Outcome S Slice) : Type 0 where
  pub world : World S
  pub returns : r ≡ err (code rv) world
  pub released : (x : ℕ) → world.pins x ≡ w.pins x

module _ {S : Type 0} (env : Env S) (fn rv : ℕ) (bad : rv ≢ 0) where
  is_bad : (rv == 0) ≡ false
  is_bad = ground arith

  -- The world in which `fetch` gives up.
  given_up : ℕ → List ℕ → World S → World S
  given_up o args w =
      let m = store w.mem w.next (replicate 8 0) in
      let r = env.call fn (args ++ 0 ∷ w.next ∷ []) w.token m in
      record w {
        mem = r.mem;
        next = w.next + 9;
        pins = set_pins w.pins o (w.next ∷ w.pins o);
        token = r.token;
      }

  fetch_refused :
      (o : ℕ) (args : List ℕ) (w : World S)
      → ((p : ℕ) (m : Memory) → (env.call fn (args ++ 0 ∷ p ∷ []) w.token m).rv ≡ rv)
      → fetch env o fn args w ≡ err (code rv) (given_up o args w)
  unfolding fetch new_word allocate pin syscall_n given_up
  fetch_refused o args w refuses = rw (refuses, is_bad) refl

  -- If the module refuses the size query of twoPassOutputNoInput, the caller gets the module's
  -- return value as an error, and no pin is left.
  pub two_pass_output_no_input-Refuses :
      (sh : ℕ) (w : World S)
      → w.pins w.pinners ≡ []
      → ((p : ℕ) (m : Memory) → (env.call fn (sh ∷ 0 ∷ p ∷ []) w.token m).rv ≡ rv)
      → Refuses w rv (two_pass_output_no_input env fn sh w)
  unfolding two_pass_output_no_input with_pinner given_up
  two_pass_output_no_input-Refuses sh w fresh refuses =
      let start = record w { pinners = suc w.pinners } in
      record {
        world = unpinned w.pinners (given_up w.pinners (sh ∷ []) start);
        returns = rw (fetch_refused w.pinners (sh ∷ []) start refuses) refl;
        released = set_pins_own w _ fresh (λ x h. ground arith);
      }

  -- From the world on in which the input is pinned.
  refused_from :
      (sh p : ℕ) (input : Slice) (w w1 : World S)
      → pin_non_null 1 w.pinners input (record w { pinners = suc w.pinners }) ≡ ok p w1
      → w1.token ≡ w.token
      → ((x : ℕ) → w.pinners ≢ x → w1.pins x ≡ w.pins x)
      → w.pins w.pinners ≡ []
      → ((p_in p : ℕ) (m : Memory)
          → (env.call fn (sh ∷ p_in ∷ input.len ∷ 0 ∷ p ∷ []) w.token m).rv ≡ rv)
      → Refuses w rv (two_pass_output env fn sh input w)
  unfolding two_pass_output with_pinner given_up
  refused_from sh p input w w1 run same others fresh refuses =
      let refuses1 : (q : ℕ) (m : Memory)
          → (env.call fn (sh ∷ p ∷ input.len ∷ 0 ∷ q ∷ []) w1.token m).rv ≡ rv =
        λ q m. rw same (refuses p q m) in
      record {
        world = unpinned w.pinners (given_up w.pinners (sh ∷ p ∷ input.len ∷ []) w1);
        returns = rw (run, fetch_refused w.pinners (sh ∷ p ∷ input.len ∷ []) w1 refuses1) refl;
        released = set_pins_own w _ fresh (λ x h. ground (arith, others x h));
      }

  -- If the module refuses the size query of twoPassOutput, whatever address the input gets, the
  -- caller gets the module's return value as an error, and no pin is left.
  pub two_pass_output-Refuses :
      (sh : ℕ) (input : Slice) (w : World S)
      → w.pins w.pinners ≡ []
      → ((p_in p : ℕ) (m : Memory)
          → (env.call fn (sh ∷ p_in ∷ input.len ∷ 0 ∷ p ∷ []) w.token m).rv ≡ rv)
      → Refuses w rv (two_pass_output env fn sh input w)
  unfolding pin_non_null pin allocate
  two_pass_output-Refuses sh input w fresh refuses = elim (Bool-cases (input.len == 0)) [
    | inl none_left ↦
        refused_from sh w.next input w
          (record w {
            mem = store w.mem w.next (0 ∷ []);
            next = w.next + 2;
            pinners = suc w.pinners;
            pins = set_pins w.pins w.pinners (w.next ∷ w.pins w.pinners);
          })
          (rw none_left refl) refl (λ x h. ground arith) fresh refuses
    | inr some_left ↦
        refused_from sh input.ptr input w
          (record w {
            pinners = suc w.pinners;
            pins = set_pins w.pins w.pinners (input.ptr ∷ w.pins w.pinners);
          })
          (rw some_left refl) refl (λ x h. ground arith) fresh refuses
  ]
