-- ===== src/Ctx/Output/Convention.antt =====
-- Outputs of variable length, against a module that follows the convention of PKCS#11: with a NULL
-- buffer a function reports a size that is enough for its output, but may exceed it; with a buffer
-- it writes the output and its exact length, and moves on.
use gopkcs.Prelude.{
  ℕ, suc, ◌+◌, ◌≤◌, ◌<◌, ◌≡◌, refl, sym, ap, ◌∙◌, ◌≢◌, inl, inr, true, List, [], ◌∷◌, ◌++◌, arith,
  leb, ◌==◌, if◌then◌else◌, Bool-cases, length, replicate,
}
use mathlib.Core.Path.{ap₂}
use gopkcs.Machine.Bytes.{Memory, load, store, load-store_self, store-outside}
use gopkcs.Machine.Words.{
  store_word, load_word, load_word-store_word_self, load_word-store_apart, load-store_word_apart,
  store_word-outside,
}
use gopkcs.Machine.Effects.{
  Slice, World, Env, ok, set_pins, max_alloc, new_word, allocate, get_word, pin, prefix, syscall_n,
}
use gopkcs.Machine.Laws.{make_bytes_run}
use gopkcs.Arena.{pin_non_null}
use gopkcs.Ctx.Output.{fetch}

-- The convention for the function at `fn`, behind the arguments `args`; `room` is the size that it
-- reports.
pub record Follows {S : Type 0} (env : Env S) (fn : ℕ) (args : List ℕ) (room : S → Memory → ℕ)
    (output : S → Memory → List ℕ) (finish : S → Memory → S) : Type 0 where
  pub enough : (t : S) (m : Memory) → length (output t m) ≤ room t m
  pub query :
      (t : S) (m : Memory) (p_len : ℕ)
      → env.call fn (args ++ 0 ∷ p_len ∷ []) t m
        ≡ record { rv = 0; mem = store_word m p_len (room t m); token = t }
  pub fill :
      (t : S) (m : Memory) (p_out p_len : ℕ)
      → p_out ≢ 0
      → length (output t m) ≤ load_word m p_len
      → env.call fn (args ++ p_out ∷ p_len ∷ []) t m ≡ record {
        rv = 0;
        mem = store_word (store m p_out (output t m)) p_len (length (output t m));
        token = finish t m;
      }

-- Memory below an address is the same.
abbrev pub Same : ℕ → Memory → Memory → Type 0
Same next m k = (x : ℕ) → x < next → m x ≡ k x

pub eq-nil : (bs : List ℕ) → length bs ≡ 0 → bs ≡ []
eq-nil [] h = refl
eq-nil (b ∷ bs) h = absurd (omega arith)

pub leb_refl : (n : ℕ) → leb n n ≡ true
leb_refl n = ground arith

module _ {S : Type 0} (env : Env S) (fn : ℕ) (args : List ℕ) (room : S → Memory → ℕ)
    (output : S → Memory → List ℕ) (finish : S → Memory → S)
    (follows : Follows env fn args room output finish) (o : ℕ) (w : World S)
    (reports : (m : Memory) → Same w.next m w.mem → room w.token m ≡ room w.token w.mem)
    (stable : (m : Memory) → Same w.next m w.mem → output w.token m ≡ output w.token w.mem)
    (moves : (m : Memory) → Same w.next m w.mem → finish w.token m ≡ finish w.token w.mem)
    (some_address : 0 < w.next) (small : room w.token w.mem ≤ max_alloc) where
  abbrev bytes : List ℕ
  bytes = output w.token w.mem

  abbrev size : ℕ
  size = room w.token w.mem

  abbrev written : ℕ
  written = length bytes

  fits : written ≤ size
  fits = follows.enough w.token w.mem

  -- The memory after each step.
  asked : Memory
  asked = store_word (store w.mem w.next (replicate 8 0)) w.next size

  buffered : Memory
  buffered = store asked (w.next + 9) (replicate size 0)

  place : ℕ
  place = if size == 0 then w.next + 9 + suc size else w.next + 9

  placed : Memory
  placed = if size == 0 then store buffered place (0 ∷ []) else buffered

  filled : Memory
  filled = store_word (store placed place bytes) w.next written

  asked-Same : Same w.next asked w.mem
  unfolding asked
  asked-Same x h =
      store_word-outside (store w.mem w.next (replicate 8 0)) w.next size x (inl h)
      ∙ store-outside w.mem w.next (replicate 8 0) x (inl h)

  buffered-Same : Same w.next buffered w.mem
  unfolding buffered
  buffered-Same x h =
      store-outside asked (w.next + 9) (replicate size 0) x (omega arith) ∙ asked-Same x h

  placed-Same : Same w.next placed w.mem
  unfolding placed place
  placed-Same x h = elim (Bool-cases (size == 0)) [
    | inl hit ↦ rw hit (
        store-outside buffered (w.next + 9 + suc size) (0 ∷ []) x (omega arith) ∙ buffered-Same x h)
    | inr miss ↦ rw miss (buffered-Same x h)
  ]

  filled-Same : Same w.next filled w.mem
  unfolding filled place
  filled-Same x h =
      store_word-outside (store placed place bytes) w.next written x (inl h)
      ∙ store-outside placed place bytes x (inl (ground arith))
      ∙ placed-Same x h

  buffered-size : load_word buffered w.next ≡ size
  unfolding buffered asked
  buffered-size =
      load_word-store_apart asked (w.next + 9) (replicate size 0) w.next (omega arith)
      ∙ load_word-store_word_self (store w.mem w.next (replicate 8 0)) w.next size (omega arith)

  placed-size : load_word placed w.next ≡ size
  unfolding placed place
  placed-size = elim (Bool-cases (size == 0)) [
    | inl hit ↦ rw hit (
        load_word-store_apart buffered (w.next + 9 + suc size) (0 ∷ []) w.next (omega arith)
        ∙ buffered-size)
    | inr miss ↦ rw miss buffered-size
  ]

  filled-written : load_word filled w.next ≡ written
  unfolding filled
  filled-written =
      load_word-store_word_self (store placed place bytes) w.next written (omega (arith, fits))

  load-filled : load filled (w.next + 9) written ≡ bytes
  unfolding filled place load
  load-filled = elim (Bool-cases (size == 0)) [
    | inl hit ↦
        let none_left : written ≡ 0 = ground (arith, fits) in
        rw none_left (sym (eq-nil bytes none_left))
    | inr miss ↦ rw miss (
        load-store_word_apart (store placed (w.next + 9) bytes) w.next written (w.next + 9) written
          (inr (omega arith))
        ∙ load-store_self placed (w.next + 9) bytes)
  ]

  asked_pins : ℕ → List ℕ
  asked_pins = set_pins w.pins o (w.next ∷ w.pins o)

  -- The world in which `fetch` returns.
  fetched : World S
  fetched = record w {
    mem = filled;
    next = if size == 0 then w.next + 9 + suc size + 2 else w.next + 9 + suc size;
    pins = set_pins asked_pins o (place ∷ asked_pins o);
    token = finish w.token w.mem;
  }

  zeroed-Same : Same w.next (store w.mem w.next (replicate 8 0)) w.mem
  zeroed-Same x h = store-outside w.mem w.next (replicate 8 0) x (inl h)

  place-ne-zero : place ≢ 0
  unfolding place
  place-ne-zero h = ground arith

  reply :
      env.call fn (args ++ place ∷ w.next ∷ []) w.token placed
      ≡ record { rv = 0; mem = filled; token = finish w.token w.mem }
  unfolding filled
  reply =
      let same : output w.token placed ≡ bytes = stable placed placed-Same in
      let moved : finish w.token placed ≡ finish w.token w.mem = moves placed placed-Same in
      let large : length (output w.token placed) ≤ load_word placed w.next =
        omega (arith, placed-size, fits, ap length same) in
      rw (follows.fill w.token placed place w.next place-ne-zero large, same, moved) refl

  -- The second call at the place of an empty output, and at that of any other.
  reply_at :
      (p : ℕ) (m : Memory)
      → place ≡ p
      → placed ≡ m
      → env.call fn (args ++ p ∷ w.next ∷ []) w.token m
        ≡ record { rv = 0; mem = filled; token = finish w.token w.mem }
  reply_at p m e f = sym (ap₂ (λ p m. env.call fn (args ++ p ∷ w.next ∷ []) w.token m) e f) ∙ reply

  prefix_fits : leb written size ≡ true
  prefix_fits = ground (arith, fits)

  fetch_run : fetch env o fn args w ≡ ok (record { ptr = w.next + 9; len = written }) fetched
  unfolding fetch new_word allocate pin syscall_n get_word prefix pin_non_null fetched asked_pins
      placed place buffered asked
  fetch_run =
      rw
        (
          follows.query,
          reports (store w.mem w.next (replicate 8 0)) zeroed-Same,
          load_word-store_word_self (store w.mem w.next (replicate 8 0)) w.next size (omega arith),
          make_bytes_run size _ small,
        )
        (elim (Bool-cases (size == 0)) [
          | inl hit ↦ rw (
            hit,
            reply_at (w.next + 9 + suc size) (store buffered (w.next + 9 + suc size) (0 ∷ []))
                (rw hit) (rw hit),
            filled-written,
            prefix_fits,
          )
          | inr miss ↦ rw (
            miss,
            reply_at (w.next + 9) buffered (rw miss) (rw miss),
            filled-written,
            prefix_fits,
          )
        ])

  -- The output is in the slice, the module has moved on, and the caller's memory and the other
  -- pinners are as they were.
  pub fetch_lem :
      (s : Slice) × (w' : World S) × (fetch env o fn args w ≡ ok s w')
      × (load w'.mem s.ptr s.len ≡ bytes)
      × (w'.token ≡ finish w.token w.mem)
      × Same w.next w'.mem w.mem
      × ((x : ℕ) → o ≢ x → w'.pins x ≡ w.pins x)
  unfolding fetched asked_pins
  fetch_lem = (
    record { ptr = w.next + 9; len = written },
    fetched,
    fetch_run,
    load-filled,
    refl,
    filled-Same,
    λ x h. ground arith,
  )
