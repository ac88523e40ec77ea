-- ===== src/Signer/Registry/Cached.antt =====
-- loginLock: which keys share a lock.
use gopkcs.Prelude.{
  ℕ, suc, ◌≡◌, refl, sym, ap, ◌∙◌, ◌↔◌, inl, inr, Bool, true, false, ◌||◌, List, [], ◌∷◌, arith,
  ◌==◌, Bool-cases,
}
use mathlib.Core.Path.{ap₂}
use gopkcs.Signer.Setup.{same_text}
use gopkcs.Signer.Registry.{locked, TokenId, same_token, login_lock}

same_text_refl : (xs : List ℕ) → same_text xs xs ≡ true
unfolding same_text
same_text_refl [] = refl
same_text_refl (x ∷ xs) = ground (arith, same_text_refl xs)

same_text_eq : (xs ys : List ℕ) → same_text xs ys ≡ true → xs ≡ ys
unfolding same_text
same_text_eq [] [] h = refl
same_text_eq [] (y ∷ ys) h = cc
same_text_eq (x ∷ xs) [] h = cc
same_text_eq (x ∷ xs) (y ∷ ys) h = elim (Bool-cases (x == y)) [
  | inl hit ↦
      let rest : xs ≡ ys = same_text_eq xs ys (rw hit at h) in let head : x ≡ y = ground arith in cc
  | inr miss ↦ absurd (let no : false ≡ true = rw miss at h in cc)
]

same_token_refl : (t : TokenId) → same_token t t ≡ true
unfolding same_token
same_token_refl t = ground (arith, same_text_refl t.label)

same_token_eq : (t u : TokenId) → same_token t u ≡ true → t ≡ u
unfolding same_token
same_token_eq t u h = elim (Bool-cases (t.module_id == u.module_id)) [
  | inl hit ↦
      let label : t.label ≡ u.label = same_text_eq t.label u.label (rw hit at h) in
      let module_id : t.module_id ≡ u.module_id = ground arith in
      ap₂ (λ m l. record { module_id = m; label = l }) module_id label
  | inr miss ↦ absurd (let no : false ≡ true = rw miss at h in cc)
]

same_token_sym : (t u : TokenId) → t ≡ u → same_token u t ≡ true
same_token_sym t u e = rw e (same_token_refl u)

-- Whether a token is among those seen.
known : TokenId → List TokenId → Bool
known t [] = false
known t (u ∷ seen) = same_token t u || known t seen

known-login_lock : (t : TokenId) (seen : List TokenId) → known t (login_lock t seen).1 ≡ true
unfolding login_lock known
known-login_lock t [] = rw (same_token_refl t) refl
known-login_lock t (v ∷ seen) = elim (Bool-cases (same_token t v)) [
  | inl hit ↦ rw (hit, hit) refl
  | inr miss ↦ rw (miss, miss) (known-login_lock t seen)
]

-- Another call keeps what is known, and its lock.
known-keeps :
    (t v : TokenId) (seen : List TokenId)
    → known t seen ≡ true
    → (known t (login_lock v seen).1 ≡ true)
      × ((login_lock t (login_lock v seen).1).0 ≡ (login_lock t seen).0)
unfolding login_lock known
known-keeps t v [] h = cc
known-keeps t v (u ∷ seen) h = elim (Bool-cases (same_token v u)) [
  | inl hit ↦ rw hit (h, refl)
  | inr miss ↦ elim (Bool-cases (same_token t u)) [
    | inl here ↦ rw (miss, here) (refl, refl)
    | inr there ↦
        let (still, same) = known-keeps t v seen (rw there at h) in
        rw (miss, there) (still, ap suc same)
  ]
]

-- A known token shares its lock with itself only.
known-shared :
    (t u : TokenId) (seen : List TokenId)
    → known t seen ≡ true
    → ((login_lock u seen).0 ≡ (login_lock t seen).0) ↔ (t ≡ u)
unfolding login_lock known
known-shared t u [] h = cc
known-shared t u (v ∷ seen) h = elim (Bool-cases (same_token t v)) [
  | inl hit ↦ elim (Bool-cases (same_token u v)) [
    | inl both ↦
        rw (hit, both) ((λ e. same_token_eq t v hit ∙ sym (same_token_eq u v both)), (λ e. refl))
    | inr one ↦
        rw (hit, one)
          (
            (λ e. absurd (omega (arith, e))),
            (λ e. absurd (let again : same_token u v ≡ true = rw e at hit in cc)),
          )
  ]
  | inr miss ↦ elim (Bool-cases (same_token u v)) [
    | inl other ↦
        rw (miss, other)
          (
            (λ e. absurd (omega (arith, e))),
            (λ e. absurd (let again : same_token t v ≡ true = rw (← e) at other in cc)),
          )
    | inr none_here ↦
        let rest = known-shared t u seen (rw miss at h) in
        rw (miss, none_here) ((λ e. rest.0 (omega (arith, e))), (λ e. ap suc (rest.1 e)))
  ]
]

known-locked :
    (t : TokenId) (calls seen : List TokenId)
    → known t seen ≡ true
    → (known t (locked calls seen) ≡ true)
      × ((login_lock t (locked calls seen)).0 ≡ (login_lock t seen).0)
unfolding locked
known-locked t [] seen h = (h, refl)
known-locked t (v ∷ calls) seen h =
    let (still, same) = known-keeps t v seen h in
    let (later, lock) = known-locked t calls (login_lock v seen).1 still in (later, lock ∙ same)

again :
    (t : TokenId) (seen : List TokenId)
    → (login_lock t (login_lock t seen).1).0 ≡ (login_lock t seen).0
unfolding login_lock
again t [] = rw (same_token_refl t) refl
again t (v ∷ seen) = elim (Bool-cases (same_token t v)) [
  | inl hit ↦ rw (hit, hit) refl
  | inr miss ↦ rw (miss, miss) (ap suc (again t seen))
]

-- Once loginLock has given a token its lock, then after any further calls, with whatever tokens,
-- it gives the same token the same lock again and any other token another; tokens are the same if
-- their modules and labels are.
pub login_lock-shared :
    (t u : TokenId) (seen calls : List TokenId)
    → ((login_lock u (locked calls (login_lock t seen).1)).0 ≡ (login_lock t seen).0) ↔ (t ≡ u)
login_lock-shared t u seen calls =
    let (still, same) = known-locked t calls (login_lock t seen).1 (known-login_lock t seen) in
    let lock : (login_lock t (locked calls (login_lock t seen).1)).0 ≡ (login_lock t seen).0 =
      same ∙ again t seen in
    let shared = known-shared t u (locked calls (login_lock t seen).1) still in
    ((λ e. shared.0 (e ∙ sym lock)), (λ e. shared.1 e ∙ lock))
