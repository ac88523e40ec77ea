-- ===== src/Signer/Login/Safety.antt =====
-- Nobody is logged out while it signs.
use gopkcs.Prelude.{
  ℕ, ◌<◌, ◌≡◌, refl, sym, ap, ◌∙◌, ◌≢◌, ◌⊎◌, inl, inr, Bool, true, false, arith, ◌==◌, Bool-cases,
}
use gopkcs.Signer.Pool.Concurrent.Families.{update}
use gopkcs.Signer.Login.{
  Place, outside, opening, signing, renewing, renewed, is_inside, is_writing, Token, at_start,
  LoginStep, open_lock, open_login, open_unlock, sign_lock, sign_unlock, renew_lock, renew_logout,
  renew_login, renew_fail, renew_unlock, LoginReach, at_first, and_step,
}

-- A place that counts on the login.
abbrev counts_on : Place → Bool
counts_on outside = false
counts_on opening = false
counts_on (signing b) = b
counts_on renewing = false
counts_on renewed = true

record Sound (n : ℕ) (s : Token) : Type 0 where
  alone :
      (i j : ℕ)
      → i < n
      → j < n
      → i ≢ j
      → is_writing (s.place i) ≡ true
      → is_inside (s.place j) ≡ false
  login : (i : ℕ) → i < n → counts_on (s.place i) ≡ true → s.logged_in ≡ true

writing_inside : (p : Place) → is_writing p ≡ true → is_inside p ≡ true
writing_inside outside h = cc
writing_inside opening h = refl
writing_inside (signing b) h = refl
writing_inside renewing h = refl
writing_inside renewed h = refl

counts_inside : (p : Place) → is_inside p ≡ false → counts_on p ≡ false
counts_inside outside h = refl
counts_inside opening h = cc
counts_inside (signing b) h = cc
counts_inside renewing h = cc
counts_inside renewed h = cc

-- At goroutine i the new place, at the others the old ones.
at_update :
    (f : Place → Bool) (place : ℕ → Place) (i j : ℕ) (p : Place)
    → ((i ≡ j) × (f (update place i p j) ≡ f p))
      ⊎ ((i ≢ j) × (f (update place i p j) ≡ f (place j)))
at_update f place i j p = elim (Bool-cases (i == j)) [
  | inl here ↦ inl (ground arith, rw here refl)
  | inr there ↦ inr ((λ e. ground arith), rw there refl)
]

module _ (n : ℕ) (s : Token) (sound : Sound n s) where
  -- Goroutine i moves to p, and the login becomes l.
  move-Sound :
      (i : ℕ) (p : Place) (l : Bool)
      → (is_writing p ≡ true → (j : ℕ) → j < n → i ≢ j → is_inside (s.place j) ≡ false)
      → (is_inside p ≡ true → (j : ℕ) → j < n → i ≢ j → is_writing (s.place j) ≡ false)
      → (counts_on p ≡ true → l ≡ true)
      → ((j : ℕ) → j < n → i ≢ j → counts_on (s.place j) ≡ true → l ≡ true)
      → Sound n (record s { logged_in = l; place = update s.place i p })
  move-Sound i p l clear quiet mine theirs = record {
    alone = λ a b low high ne writes. elim (at_update is_writing s.place i a p) [
      | inl (here, e) ↦ elim (at_update is_inside s.place i b p) [
        | inl (same, f) ↦ absurd (ne (sym here ∙ same))
        | inr (other, f) ↦ f ∙ clear (sym e ∙ writes) b high other
      ]
      | inr (away, e) ↦ elim (at_update is_inside s.place i b p) [
        | inl (same, f) ↦ f ∙ not_inside a low away (sym e ∙ writes)
        | inr (other, f) ↦ f ∙ sound.alone a b low high ne (sym e ∙ writes)
      ]
    ];
    login = λ j low counts. elim (at_update counts_on s.place i j p) [
      | inl (here, e) ↦ mine (sym e ∙ counts)
      | inr (away, e) ↦ theirs j low away (sym e ∙ counts)
    ];
  }
    where
      not_inside : (a : ℕ) → a < n → i ≢ a → is_writing (s.place a) ≡ true → is_inside p ≡ false
      not_inside a low away writes = elim (Bool-cases (is_inside p)) [
        | inl inside ↦ let idle : is_writing (s.place a) ≡ false = quiet inside a low away in cc
        | inr out ↦ out
      ]

  -- A goroutine with the lock for writing is alone.
  others_out :
      (i : ℕ)
      → i < n
      → is_writing (s.place i) ≡ true
      → (j : ℕ) → j < n
      → i ≢ j
      → is_inside (s.place j) ≡ false
  others_out i low writes j high ne = sound.alone i j low high ne writes

  others_idle :
      (i : ℕ)
      → i < n
      → is_writing (s.place i) ≡ true
      → (j : ℕ) → j < n
      → i ≢ j
      → is_writing (s.place j) ≡ false
  others_idle i low writes j high ne = elim (Bool-cases (is_writing (s.place j))) [
    | inl w ↦
        let inside : is_inside (s.place j) ≡ true = writing_inside (s.place j) w in
        let out : is_inside (s.place j) ≡ false = sound.alone i j low high ne writes in cc
    | inr w ↦ w
  ]

  others_free :
      (l : Bool) (i : ℕ)
      → i < n
      → is_writing (s.place i) ≡ true
      → (j : ℕ) → j < n
      → i ≢ j
      → counts_on (s.place j) ≡ true
      → l ≡ true
  others_free l i low writes j high ne counts =
      let free : counts_on (s.place j) ≡ false =
        counts_inside (s.place j) (sound.alone i j low high ne writes) in
      cc

  kept : (j : ℕ) → j < n → counts_on (s.place j) ≡ true → s.logged_in ≡ true
  kept = sound.login

  leave-Sound : (i : ℕ) → i < n → Sound n (record s { place = update s.place i outside })
  leave-Sound i low =
      move-Sound i outside s.logged_in (λ h. cc) (λ h. cc) (λ h. cc) (λ j high ne. kept j high)

  step-Sound : (t : Token) → LoginStep n s t → Sound n t
  step-Sound _ (open_lock i low here free) =
      move-Sound i opening s.logged_in (λ h. cc) (λ h j high ne. free j high) (λ h. cc)
        (λ j high ne. kept j high)
  step-Sound _ (open_login i low here) = record { alone = sound.alone; login = λ j high c. refl }
  step-Sound _ (open_unlock i low here) = leave-Sound i low
  step-Sound _ (sign_lock i low here free) =
      move-Sound i (signing s.logged_in) s.logged_in (λ h. cc) (λ h j high ne. free j high) (λ h. h)
        (λ j high ne. kept j high)
  step-Sound _ (sign_unlock i b low here) = leave-Sound i low
  step-Sound _ (renew_lock i low here free) =
      move-Sound i renewing s.logged_in (λ h j high ne. free j high) (λ h j high ne. idle j high)
        (λ h. cc) (λ j high ne. kept j high)
    where
      idle : (j : ℕ) → j < n → is_writing (s.place j) ≡ false
      idle j high = elim (Bool-cases (is_writing (s.place j))) [
        | inl w ↦
            let inside : is_inside (s.place j) ≡ true = writing_inside (s.place j) w in
            let out : is_inside (s.place j) ≡ false = free j high in cc
        | inr w ↦ w
      ]
  step-Sound _ (renew_logout i low here) = record {
    alone = sound.alone;
    login = λ j high counts. elim (Bool-cases (i == j)) [
      | inl same ↦
          let at : i ≡ j = ground arith in
          let free : counts_on (s.place j) ≡ false = ap counts_on (ap s.place (sym at) ∙ here) in cc
      | inr other ↦ others_free false i low (ap is_writing here) j high (λ e. ground arith) counts
    ];
  }
  step-Sound _ (renew_login i low here) =
      move-Sound i renewed true (λ h. others_out i low (ap is_writing here))
        (λ h. others_idle i low (ap is_writing here)) (λ h. refl) (λ j high ne counts. refl)
  step-Sound _ (renew_fail i low here) = leave-Sound i low
  step-Sound _ (renew_unlock i low here) = leave-Sound i low

start-Sound : (n : ℕ) → Sound n at_start
start-Sound n = record { alone = λ i j low high ne h. cc; login = λ i low h. cc }

reach-Sound : (n : ℕ) (s : Token) → LoginReach n s → Sound n s
reach-Sound n _ at_first = start-Sound n
reach-Sound n t (and_step {s} r step) = step-Sound n s (reach-Sound n s r) t step

-- In every reachable state of a token that any number of keys use, a key that signs and found the
-- user logged in when it took the token's lock, or has just logged in itself, still has the user
-- logged in.
pub signing-logged_in :
    (n : ℕ) (s : Token) (i : ℕ)
    → LoginReach n s
    → i < n
    → (s.place i ≡ signing true) ⊎ (s.place i ≡ renewed)
    → s.logged_in ≡ true
signing-logged_in n s i r low (inl e) = (reach-Sound n s r).login i low (ap counts_on e)
signing-logged_in n s i r low (inr e) = (reach-Sound n s r).login i low (ap counts_on e)

-- In every reachable state, while an always-authenticating key logs out and in again, or signs
-- after it, no other goroutine holds the token's lock.
pub renewing-alone :
    (n : ℕ) (s : Token) (i j : ℕ)
    → LoginReach n s
    → i < n
    → j < n
    → i ≢ j
    → (s.place i ≡ renewing) ⊎ (s.place i ≡ renewed)
    → s.place j ≡ outside
renewing-alone n s i j r low high ne at =
    out (s.place j) refl ((reach-Sound n s r).alone i j low high ne (writes at))
  where
    writes : (s.place i ≡ renewing) ⊎ (s.place i ≡ renewed) → is_writing (s.place i) ≡ true
    writes (inl e) = ap is_writing e
    writes (inr e) = ap is_writing e

    out : (p : Place) → s.place j ≡ p → is_inside p ≡ false → s.place j ≡ outside
    out outside e h = e
    out opening e h = cc
    out (signing b) e h = cc
    out renewing e h = cc
    out renewed e h = cc
