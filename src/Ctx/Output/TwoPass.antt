-- ===== src/Ctx/Output/TwoPass.antt =====
-- twoPassOutput and twoPassOutputNoInput against a module that follows the convention.
use gopkcs.Prelude.{
  ℕ, suc, ◌+◌, ◌≤◌, ◌<◌, ◌≡◌, refl, sym, ap, ◌∙◌, ◌≢◌, inl, inr, List, [], ◌∷◌, arith, ◌==◌,
  Bool-cases,
}
use mathlib.Core.Path.{ap₂}
use gopkcs.Machine.Bytes.{Memory, load, load-congr, store-outside, store}
use gopkcs.Machine.Effects.{
  allocate, pin, Slice, World, Env, Outcome, ok, max_alloc, set_pins, with_pinner, unpinned,
}
use gopkcs.Ctx.Output.{two_pass_output, two_pass_output_no_input}
use gopkcs.Ctx.Output.Convention.{Follows, Same, fetch_lem}
use gopkcs.Arena.{pin_non_null}
use gopkcs.Machine.Laws.{set_pins_own}

-- The bytes of a slice.
abbrev pub bytes_in : Memory → Slice → List ℕ
bytes_in m s = load m s.ptr s.len

-- What a caller sees of a run that succeeds with an output.
pub record Delivers {S : Type 0} (w : World S) (out : List ℕ) (token : S) (r : Outcome S Slice)
    : Type 0 where
  pub slice : Slice
  pub world : World S
  pub returns : r ≡ ok slice world
  pub output : bytes_in world.mem slice ≡ out
  pub moved : world.token ≡ token
  pub same : Same w.next world.mem w.mem
  pub released : (x : ℕ) → world.pins x ≡ w.pins x

module _ {S : Type 0} (env : Env S) (fn sh : ℕ) (w : World S) (some_address : 0 < w.next)
    (fresh : w.pins w.pinners ≡ []) where
  -- twoPassOutputNoInput, under the same conditions: the caller gets exactly the module's output,
  -- however much larger the reported size is, the module has taken one step, memory that was in
  -- use is unchanged, and no pin is left.
  pub two_pass_output_no_input-Delivers :
      (room : S → ℕ) (output : S → List ℕ) (finish : S → S)
      → Follows env fn (sh ∷ []) (λ t m. room t) (λ t m. output t) (λ t m. finish t)
      → room w.token ≤ max_alloc
      → Delivers w (output w.token) (finish w.token) (two_pass_output_no_input env fn sh w)
  unfolding two_pass_output_no_input with_pinner
  two_pass_output_no_input-Delivers room output finish follows small =
      let (s, w', run, out, moved, same, pins) =
        fetch_lem env fn (sh ∷ []) (λ t m. room t) (λ t m. output t) (λ t m. finish t) follows
          w.pinners (record w { pinners = suc w.pinners }) (λ m h. refl) (λ m h. refl) (λ m h. refl)
          some_address small in
      record {
        slice = s;
        world = unpinned w.pinners w';
        returns = rw run refl;
        output = out;
        moved = moved;
        same = same;
        released = set_pins_own w w'.pins fresh pins;
      }

  -- The world after the input is pinned: unchanged below `next` but for the pins of this call.
  record Pinned (input : Slice) : Type 0 where
    place : ℕ
    world : World S
    runs : pin_non_null 1 w.pinners input (record w { pinners = suc w.pinners }) ≡ ok place world
    token : world.token ≡ w.token
    later : w.next ≤ world.next
    same : Same w.next world.mem w.mem
    input_same :
        (m : Memory) → Same world.next m world.mem → load m place input.len ≡ bytes_in w.mem input
    pins : (x : ℕ) → w.pinners ≢ x → world.pins x ≡ w.pins x

  pinned : (input : Slice) → input.ptr + input.len ≤ w.next → Pinned input
  unfolding pin_non_null pin allocate load
  pinned input below = elim (Bool-cases (input.len == 0)) [
    | inl hit ↦
        let none_left : input.len ≡ 0 = ground arith in
        record {
          place = w.next;
          world = record w {
            mem = store w.mem w.next (0 ∷ []);
            next = w.next + 2;
            pinners = suc w.pinners;
            pins = set_pins w.pins w.pinners (w.next ∷ w.pins w.pinners);
          };
          runs = rw hit refl;
          token = refl;
          later = omega arith;
          same = λ x h. store-outside w.mem w.next (0 ∷ []) x (inl h);
          input_same = λ m h. rw none_left refl;
          pins = λ x h. ground arith;
        }
    | inr miss ↦ record {
      place = input.ptr;
      world = record w {
        pinners = suc w.pinners;
        pins = set_pins w.pins w.pinners (input.ptr ∷ w.pins w.pinners);
      };
      runs = rw miss refl;
      token = refl;
      later = omega arith;
      same = λ x h. refl;
      input_same = λ m h. load-congr m w.mem input.ptr input.len (λ x l u. h x (omega arith));
      pins = λ x h. ground arith;
    }
  ]

  -- twoPassOutput, on a module that follows the output convention of PKCS#11, where the size that
  -- it reports is enough for the output but may exceed it, and with that size within the
  -- allocation limit: the caller gets exactly the module's output for the bytes of its input (an
  -- empty input or output included), the module has taken one step, memory that was in use is
  -- unchanged, and no pin is left.
  pub two_pass_output-Delivers :
      (input : Slice) (room : S → List ℕ → ℕ) (output : S → List ℕ → List ℕ)
      (finish : S → List ℕ → S)
      → input.ptr + input.len ≤ w.next
      → ((p : ℕ)
          → Follows env fn
              (sh ∷ p ∷ input.len ∷ [])
              (λ t m. room t (load m p input.len))
              (λ t m. output t (load m p input.len))
              (λ t m. finish t (load m p input.len)))
      → room w.token (bytes_in w.mem input) ≤ max_alloc
      → Delivers w
          (output w.token (bytes_in w.mem input))
          (finish w.token (bytes_in w.mem input))
          (two_pass_output env fn sh input w)
  unfolding two_pass_output with_pinner
  two_pass_output-Delivers input room output finish below follows small =
      let p = pinned input below in
      let w1 = p.world in
      let bytes : List ℕ = bytes_in w.mem input in
      let read : (m : Memory) → Same w1.next m w1.mem → load m p.place input.len ≡ bytes =
        p.input_same in
      let here : load w1.mem p.place input.len ≡ bytes = read w1.mem (λ x h. refl) in
      let out_here : output w1.token (load w1.mem p.place input.len) ≡ output w.token bytes =
        ap₂ output p.token here in
      let room_here : room w1.token (load w1.mem p.place input.len) ≡ room w.token bytes =
        ap₂ room p.token here in
      let (s, w', run, out, moved, same, pins) =
        fetch_lem env fn (sh ∷ p.place ∷ input.len ∷ []) (λ t m. room t (load m p.place input.len))
          (λ t m. output t (load m p.place input.len)) (λ t m. finish t (load m p.place input.len))
          (follows p.place) w.pinners w1 (λ m h. ap (room w1.token) (read m h ∙ sym here))
          (λ m h. ap (output w1.token) (read m h ∙ sym here))
          (λ m h. ap (finish w1.token) (read m h ∙ sym here)) (omega (arith, p.later))
          (omega (arith, room_here)) in
      record {
        slice = s;
        world = unpinned w.pinners w';
        returns = rw (p.runs, run) refl;
        output = out ∙ out_here;
        moved = moved ∙ ap₂ finish p.token here;
        same = λ x h. same x (omega (arith, p.later)) ∙ p.same x h;
        released = set_pins_own w w'.pins fresh (λ x h. pins x h ∙ p.pins x h);
      }
