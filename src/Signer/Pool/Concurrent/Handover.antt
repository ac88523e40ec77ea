-- ===== src/Signer/Pool/Concurrent/Handover.antt =====
-- The table of owners after a goroutine takes a key or gives one up.
use gopkcs.Prelude.{
  ℕ, ◌<◌, ◌≡◌, refl, sym, ap, ◌∙◌, ◌≢◌, inl, inr, Bool, true, none, some, arith, ◌==◌, Bool-cases,
}
use gopkcs.Signer.Pool.Concurrent.{Pc, System}
use gopkcs.Signer.Pool.Concurrent.Families.{update}
use gopkcs.Signer.Pool.Concurrent.Invariant.{holds}
use gopkcs.Signer.Pool.Concurrent.Owners.{Owners, Abstracts}

inj : {a b : ℕ} → some a ≡ some b → a ≡ b
inj e = cc

pub none-ne-some : {a : ℕ} → none ≢ some a
none-ne-some e = cc

module _ (n : ℕ) (s : System) (a : Owners) (i : ℕ) (p q : Pc) (low : i < n) (here : s.pc i ≡ p)
    (abs : Abstracts n s a) (k : ℕ) (others : (x : ℕ) → x ≢ k → holds x q ≡ holds x p) where
  open abs use {held, owned}

  -- Goroutine i takes key k, gives it up, or neither.
  at_self : 0 < holds k q → 0 < holds k (update s.pc i q i)
  at_self got = let self : (i == i) ≡ true = ground arith in rw self got

  there : (x j : ℕ) → (i == j) ≡ true → holds x (s.pc j) ≡ holds x p
  there x j hit = let same : i ≡ j = ground arith in rw (← same, here) refl

  moved : (x j : ℕ) → x ≢ k → holds x (update s.pc i q j) ≡ holds x (s.pc j)
  moved x j ne = elim (Bool-cases (i == j)) [
    | inl hit ↦ rw hit (others x ne ∙ sym (there x j hit))
    | inr miss ↦ rw miss refl
  ]

  module _ (got : 0 < holds k q) (free : a.owner k ≡ none) where
    takes-held :
        (x j : ℕ)
        → update a.owner k (some i) x ≡ some j
        → (j < n) × (0 < holds x (update s.pc i q j))
    takes-held x j = elim (Bool-cases (k == x)) [
      | inl hit ↦
          (let same : k ≡ x = ground arith in
            rw hit (λ e. let who : i ≡ j = inj e in rw (← who, ← same) (low, at_self got)))
      | inr miss ↦
          rw miss
            (λ e. ((held x j e).0, omega (arith, (held x j e).1, moved x j (λ f. ground arith))))
    ]

    takes-owned :
        (x j : ℕ) → j < n → 0 < holds x (update s.pc i q j) → update a.owner k (some i) x ≡ some j
    takes-owned x j high e = elim (Bool-cases (k == x)) [
      | inl hit ↦
          (let same : k ≡ x = ground arith in
            elim (Bool-cases (i == j)) [
              | inl mine ↦ let who : i ≡ j = ground arith in rw hit (ap some who)
              | inr other ↦
                  let h : 0 < holds k (s.pc j) = rw (other, ← same) at e in
                  absurd (none-ne-some (sym free ∙ owned k j high h))
            ])
      | inr miss ↦ rw miss (owned x j high (omega (arith, e, moved x j (λ f. ground arith))))
    ]

  module _ (had : 0 < holds k p) (gone : holds k q ≡ 0) where
    drops-held :
        (x j : ℕ) → update a.owner k none x ≡ some j → (j < n) × (0 < holds x (update s.pc i q j))
    drops-held x j = elim (Bool-cases (k == x)) [
      | inl hit ↦ rw hit (λ e. absurd (none-ne-some e))
      | inr miss ↦
          rw miss
            (λ e. ((held x j e).0, omega (arith, (held x j e).1, moved x j (λ f. ground arith))))
    ]

    drops-owned :
        (x j : ℕ) → j < n → 0 < holds x (update s.pc i q j) → update a.owner k none x ≡ some j
    drops-owned x j high e = elim (Bool-cases (k == x)) [
      | inl hit ↦
          (let same : k ≡ x = ground arith in
            elim (Bool-cases (i == j)) [
              | inl mine ↦
                  let h : 0 < holds k q = rw (mine, ← same) at e in absurd (omega (arith, h, gone))
              | inr other ↦
                  let h : 0 < holds k (s.pc j) = rw (other, ← same) at e in
                  let who : i ≡ j = inj (sym (owned k i low (rw here had)) ∙ owned k j high h) in
                  absurd (ground arith)
            ])
      | inr miss ↦ rw miss (owned x j high (omega (arith, e, moved x j (λ f. ground arith))))
    ]

module _ (n : ℕ) (s : System) (a : Owners) (i : ℕ) (p q : Pc) (low : i < n) (here : s.pc i ≡ p)
    (abs : Abstracts n s a) where
  pub takes :
      (t : System) (a' : Owners) (k : ℕ)
      → ((x : ℕ) → x ≢ k → holds x q ≡ holds x p)
      → 0 < holds k q
      → a.owner k ≡ none
      → t.pc ≡ update s.pc i q
      → a'.owner ≡ update a.owner k (some i)
      → a'.destroyed ≡ t.destroyed
      → a'.over ≡ t.finished
      → Abstracts n t a'
  takes t a' k others got free pcs owners wiped ended = record {
    held = rw (pcs, owners) (takes-held n s a i p q low here abs k others got free);
    owned = rw (pcs, owners) (takes-owned n s a i p q low here abs k others got free);
    destroyed = wiped;
    over = ended;
  }

  pub drops :
      (t : System) (k : ℕ)
      → ((x : ℕ) → x ≢ k → holds x q ≡ holds x p)
      → 0 < holds k p
      → holds k q ≡ 0
      → t.pc ≡ update s.pc i q
      → s.destroyed ≡ t.destroyed
      → s.finished ≡ t.finished
      → Abstracts n t (record a { owner = update a.owner k none })
  drops t k others had gone pcs wiped ended = record {
    held = rw pcs (drops-held n s a i p q low here abs k others had gone);
    owned = rw pcs (drops-owned n s a i p q low here abs k others had gone);
    destroyed = abs.destroyed ∙ wiped;
    over = abs.over ∙ ended;
  }

  module _ (same : (x : ℕ) → holds x q ≡ holds x p) where
    unmoved : (x j : ℕ) → holds x (update s.pc i q j) ≡ holds x (s.pc j)
    unmoved x j = elim (Bool-cases (i == j)) [
      | inl hit ↦ let who : i ≡ j = ground arith in rw (hit, ← who, here) (same x)
      | inr miss ↦ rw miss refl
    ]

    pub keeps :
        (t : System) (b : Bool)
        → t.pc ≡ update s.pc i q
        → s.destroyed ≡ t.destroyed
        → b ≡ t.finished
        → Abstracts n t (record a { over = b })
    keeps t b pcs wiped ended = record {
      held = rw pcs (λ x j e. ((abs.held x j e).0, omega (arith, (abs.held x j e).1, unmoved x j)));
      owned = rw pcs (λ x j high e. abs.owned x j high (omega (arith, e, unmoved x j)));
      destroyed = abs.destroyed ∙ wiped;
      over = ended;
    }
