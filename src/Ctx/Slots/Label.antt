-- ===== src/Ctx/Slots/Label.antt =====
-- The label that InitToken writes and GetTokenInfo reads, against a module that keeps it.
use gopkcs.Prelude.{
  ℕ, suc, ◌+◌, ◌≤◌, ◌≡◌, refl, sym, ap, ◌∙◌, inl, inr, true, Option, none, some, List, [], ◌∷◌,
  ◌++◌, arith, ◌==◌, if◌then◌else◌, Bool-cases, length, replicate,
}
use mathlib.Core.Path.{ap₂}
use gopkcs.Machine.Bytes.{load-congr, Memory, store, load, load-store_self, load-store_apart}
use gopkcs.Machine.Effects.{
  panic, err, get_bytes, get_word, get_byte, World, Env, Outcome, ok, set_pins, with_pinner,
  allocate, pin, put_bytes, bytes_of_string, syscall_n,
}
use gopkcs.Types.{TokenInfo}
use gopkcs.Types.Padding.{
  trim_padded_string-pad_string, trim_padded_string, IsTrimmed, pad_string, length-pad_string,
}
use gopkcs.Params.{pin_bytes}
use gopkcs.FuncList.{FunctionList}
use gopkcs.Ctx.Base.{get_version, get_text, Ctx, functions, invoke}
use gopkcs.Ctx.Slots.{init_token, get_token_info}

nil_of : (xs : List ℕ) → (length xs == 0) ≡ true → xs ≡ []
nil_of [] h = refl
nil_of (x ∷ xs) h = absurd (ground arith)

load-store_first :
    (m : Memory) (p : ℕ) (xs ys : List ℕ) → load (store m p (xs ++ ys)) p (length xs) ≡ xs
unfolding load store
load-store_first m p [] ys = refl
load-store_first m p (x ∷ xs) ys =
    let rest : load (store m p (x ∷ (xs ++ ys))) (suc p) (length xs) ≡ xs =
      load-congr _ (store m (suc p) (xs ++ ys)) (suc p) (length xs) (λ y h k. ground arith)
      ∙ load-store_first m (suc p) xs ys in
    ground (arith, rest)

-- The label of a result.
abbrev pub label_of : {S : Type 0} → Outcome S TokenInfo → Option (List ℕ)
label_of (ok info w) = some info.label
label_of (err e w) = none
label_of panic = none

module _ {S : Type 0} (env : Env S) (fl : FunctionList) (initialise : ℕ → List ℕ → List ℕ → S → S)
    (keeps : (slot p_pin n p_label : ℕ) (t : S) (m : Memory)
      → env.call fl.c_init_token (slot ∷ p_pin ∷ n ∷ p_label ∷ []) t m ≡ record {
        rv = 0;
        mem = m;
        token = initialise slot (load m p_pin n) (load m p_label 32) t;
      }) where
  abbrev pub opened : Ctx
  opened = record { fl = some fl }

  module _ (slot : ℕ) (pass label : List ℕ) (w : World S) where
    abbrev padded : List ℕ
    padded = pad_string label 32

    abbrev p_label : ℕ
    p_label = w.next + suc (length pass)

    abbrev p_pin : ℕ
    p_pin = if length pass == 0 then 0 else w.next

    with_pass : Memory
    with_pass = store (store w.mem w.next (replicate (length pass) 0)) w.next pass

    with_label : Memory
    with_label = store (store with_pass p_label (replicate (length padded) 0)) p_label padded

    abbrev pass_pins : ℕ → List ℕ
    pass_pins =
        if length pass == 0 then w.pins else set_pins w.pins w.pinners (w.next ∷ w.pins w.pinners)

    initialised : World S
    initialised = record w {
      mem = with_label;
      next = p_label + suc (length padded);
      pinners = suc w.pinners;
      pins = set_pins (set_pins pass_pins w.pinners (p_label ∷ pass_pins w.pinners)) w.pinners [];
      token =
          initialise slot (load with_label p_pin (length pass)) (load with_label p_label 32)
            w.token;
    }

    init_token_run : init_token env opened slot pass label w ≡ ok tt initialised
    unfolding init_token with_pinner bytes_of_string allocate put_bytes pin_bytes pin invoke
        functions syscall_n with_pass with_label initialised
    init_token_run = elim (Bool-cases (length pass == 0)) [
      | inl none_left ↦ rw (none_left, keeps) refl
      | inr some_left ↦ rw (some_left, keeps) refl
    ]

    load-label : load with_label p_label 32 ≡ padded
    unfolding with_label
    load-label =
        ap (load with_label p_label) (sym (length-pad_string label 32))
        ∙ load-store_self (store with_pass p_label (replicate (length padded) 0)) p_label padded

    load-pass : load with_label p_pin (length pass) ≡ pass
    unfolding with_label with_pass load
    load-pass = elim (Bool-cases (length pass == 0)) [
      | inl none_left ↦ let empty : pass ≡ [] = nil_of pass none_left in rw empty refl
      | inr some_left ↦ rw some_left (
          load-store_apart _ p_label padded w.next (length pass) (inl (omega arith))
          ∙ load-store_apart _ p_label (replicate (length padded) 0) w.next (length pass)
              (inl (omega arith))
          ∙ load-store_self (store w.mem w.next (replicate (length pass) 0)) w.next pass)
    ]

  -- C_GetTokenInfo gives a structure that starts with the label with which the token was initialised.
  module _ (info : S → List ℕ) (rest : S → List ℕ)
      (tells : (slot buf : ℕ) (t : S) (m : Memory)
        → env.call fl.c_get_token_info (slot ∷ buf ∷ []) t m
          ≡ record { rv = 0; mem = store m buf (info t); token = t })
      (starts : (slot : ℕ) (pass label : List ℕ) (t : S)
        → info (initialise slot pass label t) ≡ label ++ rest t) where
    label_of-get_token_info :
        (slot : ℕ) (w : World S)
        → label_of (get_token_info env opened slot w)
          ≡ some (
              trim_padded_string (
                load
                  (store (store w.mem w.next (replicate 256 0)) w.next (info w.token))
                  w.next
                  32))
    unfolding get_token_info with_pinner allocate pin invoke functions syscall_n get_text
        get_version get_word get_byte get_bytes
    label_of-get_token_info slot w = rw tells refl

    -- A label that fits 32 bytes and does not end in a space, given to InitToken, is the one that
    -- GetTokenInfo reads, on a module that keeps the label it is given; the module gets the PIN
    -- and the padded label.
    pub get_token_info-init_token :
        (slot : ℕ) (pass label : List ℕ) (w : World S)
        → length label ≤ 32
        → IsTrimmed label
        → (w' : World S) × (init_token env opened slot pass label w ≡ ok tt w')
          × (w'.token ≡ initialise slot pass (pad_string label 32) w.token)
          × (label_of (get_token_info env opened slot w') ≡ some label)
    unfolding initialised
    get_token_info-init_token slot pass label w fits trimmed =
        let token : (initialised slot pass label w).token
            ≡ initialise slot pass (pad_string label 32) w.token =
          ap₂ (λ p l. initialise slot p l w.token) (load-pass slot pass label w)
            (load-label slot pass label w) in
        let given : info (initialised slot pass label w).token
            ≡ pad_string label 32 ++ rest w.token =
          ap info token ∙ starts slot pass (pad_string label 32) w.token in
        let m : Memory =
          store (initialised slot pass label w).mem (initialised slot pass label w).next
            (replicate 256 0) in
        let p : ℕ = (initialised slot pass label w).next in
        (
          initialised slot pass label w,
          init_token_run slot pass label w,
          token,
          label_of-get_token_info slot (initialised slot pass label w)
              ∙ ap (λ b. some (trim_padded_string (load (store m p b) p 32))) given
              ∙ ap
                  (λ n. some (
                    trim_padded_string
                      (load (store m p (pad_string label 32 ++ rest w.token)) p n)))
                  (sym (length-pad_string label 32))
              ∙ ap (λ b. some (trim_padded_string b))
                  (load-store_first m p (pad_string label 32) (rest w.token))
              ∙ ap some (trim_padded_string-pad_string label 32 fits trimmed),
        )
