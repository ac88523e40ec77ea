-- ===== src/Signer/Pool/Concurrent/Families.antt =====
-- Values by goroutine or by key, and how often a key occurs.
use gopkcs.Prelude.{
  ℕ, zero, suc, ◌+◌, ◌≤◌, ◌<◌, ◌≡◌, refl, ◌∙◌, ◌≢◌, inl, inr, List, [], ◌∷◌, arith, ltb, ◌==◌,
  if◌then◌else◌, Bool-cases, length, count,
}

abbrev pub update {ℓ} : {A : Type ℓ} → (ℕ → A) → ℕ → A → ℕ → A
update f i a j = if i == j then a else f j

-- The sum over the first n goroutines.
unfoldable pub total {ℓ} : {A : Type ℓ} → (A → ℕ) → ℕ → (ℕ → A) → ℕ
total w zero f = 0
total w (suc n) f = w (f n) + total w n f

module _ {ℓ} {A : Type ℓ} (w : A → ℕ) (f : ℕ → A) (i : ℕ) (a : A) where
  total-update_above : (n : ℕ) → n ≤ i → total w n (update f i a) ≡ total w n f
  unfolding total
  total-update_above zero h = refl
  total-update_above (suc n) h = ground (arith, total-update_above n)

  -- What goroutine i gives up and takes on.
  pub total-update : (n : ℕ) → i < n → total w n (update f i a) + w (f i) ≡ total w n f + w a
  unfolding total
  total-update zero h = absurd (omega arith)
  total-update (suc n) h = elim (Bool-cases (i == n)) [
    | inl last ↦ ground (arith, total-update_above n)
    | inr other ↦ ground (arith, total-update n)
  ]

pub total-member {ℓ} :
    {A : Type ℓ} (w : A → ℕ) (f : ℕ → A) (n i : ℕ) → i < n → w (f i) ≤ total w n f
unfolding total
total-member w f zero i h = absurd (omega arith)
total-member w f (suc n) i h = elim (Bool-cases (i == n)) [
  | inl last ↦ ground arith
  | inr other ↦ ground (arith, total-member w f n i)
]

pub total-members {ℓ} :
    {A : Type ℓ} (w : A → ℕ) (f : ℕ → A) (n i j : ℕ)
    → i < n
    → j < n
    → i ≢ j
    → w (f i) + w (f j) ≤ total w n f
unfolding total
total-members w f zero i j h k ne = absurd (omega arith)
total-members w f (suc n) i j h k ne = elim (Bool-cases (i == n)) [
  | inl last ↦ ground (arith, total-member w f n j)
  | inr other ↦ elim (Bool-cases (j == n)) [
    | inl last ↦ ground (arith, total-member w f n i)
    | inr both ↦ ground (arith, total-members w f n i j)
  ]
]

pub total-zero {ℓ} :
    {A : Type ℓ} (w : A → ℕ) (f : ℕ → A) (n : ℕ) → ((i : ℕ) → i < n → w (f i) ≡ 0) → total w n f ≡ 0
unfolding total
total-zero w f zero h = refl
total-zero w f (suc n) h =
    omega (arith, h n (omega arith), total-zero w f n (λ i k. h i (omega arith)))

-- How many entries are below n.
tally : ℕ → List ℕ → ℕ
tally zero xs = 0
tally (suc n) xs = count n xs + tally n xs

tally-cons : (n y : ℕ) (ys : List ℕ) → tally n (y ∷ ys) ≡ (if ltb y n then 1 else 0) + tally n ys
unfolding tally
tally-cons zero y ys = ground arith
tally-cons (suc n) y ys = ground (arith, tally-cons n y ys)

tally-nil : (n : ℕ) → tally n [] ≡ 0
unfolding tally
tally-nil zero = refl
tally-nil (suc n) = omega (arith, tally-nil n)

-- Where no entry is n or more, the tally is the length.
tally-length : (n : ℕ) (xs : List ℕ) → ((x : ℕ) → n ≤ x → count x xs ≡ 0) → tally n xs ≡ length xs
tally-length n [] h = tally-nil n
tally-length n (y ∷ ys) h = elim (Bool-cases (ltb y n)) [
  | inl low ↦
      rw (tally-cons n y ys, low) (omega (arith, tally-length n ys (λ x k. ground (arith, h x k))))
  | inr high ↦ absurd (ground (arith, h y))
]

-- Entries that occur at most once.
tally_le : (n : ℕ) (xs : List ℕ) → ((x : ℕ) → x < n → count x xs ≤ 1) → tally n xs ≤ n
unfolding tally
tally_le zero xs h = omega arith
tally_le (suc n) xs h = omega (arith, h n (omega arith), tally_le n xs (λ x k. h x (omega arith)))

tally_full :
    (n : ℕ) (xs : List ℕ)
    → ((x : ℕ) → x < n → count x xs ≤ 1)
    → tally n xs ≡ n
    → (x : ℕ) → x < n
    → count x xs ≡ 1
unfolding tally
tally_full zero xs h e x k = absurd (omega arith)
tally_full (suc n) xs h e x k =
    let small : tally n xs ≤ n = tally_le n xs (λ y l. h y (omega arith)) in
    let top : count n xs ≤ 1 = h n (omega arith) in
    elim (Bool-cases (x == n)) [
      | inl last ↦ ground arith
      | inr other ↦ tally_full n xs (λ y l. h y (omega arith)) (omega arith) x (ground arith)
    ]

tally_missing : (n : ℕ) (xs : List ℕ) → tally n xs < n → (x : ℕ) × (x < n) × (count x xs ≡ 0)
unfolding tally
tally_missing zero xs h = absurd (omega arith)
tally_missing (suc n) xs h = elim (Bool-cases (count n xs == 0)) [
  | inl none_here ↦ (n, omega arith, ground arith)
  | inr some_here ↦
      let (x, low, none_there) = tally_missing n xs (ground arith) in (x, omega arith, none_there)
]

-- A list of numbers below n without repetition: it is no longer than n; at that length it has every
-- number, and below that length it lacks one.
module _ (n : ℕ) (xs : List ℕ) (once : (x : ℕ) → count x xs ≤ (if ltb x n then 1 else 0)) where
  below_once : (x : ℕ) → x < n → count x xs ≤ 1
  below_once x h = ground (arith, once x)

  above_never : (x : ℕ) → n ≤ x → count x xs ≡ 0
  above_never x h = ground (arith, once x)

  pub length_le : length xs ≤ n
  length_le = omega (arith, tally_le n xs below_once, tally-length n xs above_never)

  pub full_has_all : length xs ≡ n → (x : ℕ) → x < n → count x xs ≡ 1
  full_has_all e = tally_full n xs below_once (tally-length n xs above_never ∙ e)

  pub short_lacks_one : length xs < n → (x : ℕ) × (x < n) × (count x xs ≡ 0)
  short_lacks_one h = tally_missing n xs (omega (arith, tally-length n xs above_never))

  -- Lacking one, it is short.
  pub lacks_one_short : (x : ℕ) → x < n → count x xs ≡ 0 → length xs < n
  lacks_one_short x low none_here = elim (Bool-cases (length xs == n)) [
    | inl full ↦ absurd (omega (arith, full_has_all (ground arith) x low))
    | inr short ↦ ground (arith, length_le)
  ]

  -- Having all, it is full.
  pub has_all_full : ((x : ℕ) → x < n → count x xs ≡ 1) → length xs ≡ n
  has_all_full all = elim (Bool-cases (ltb (length xs) n)) [
    | inl short ↦
        (let (x, low, none_here) = short_lacks_one (ground arith) in
          absurd (omega (arith, all x low)))
    | inr full ↦ ground (arith, length_le)
  ]

-- A sum that is not 0 has a term that is not.
pub total-positive {ℓ} :
    {A : Type ℓ} (w : A → ℕ) (f : ℕ → A) (n : ℕ)
    → 0 < total w n f
    → (i : ℕ) × (i < n) × (0 < w (f i))
unfolding total
total-positive w f zero h = absurd (omega arith)
total-positive w f (suc n) h = elim (Bool-cases (ltb 0 (w (f n)))) [
  | inl here ↦ (n, omega arith, ground arith)
  | inr not_here ↦
      (let (i, low, there) = total-positive w f n (ground arith) in (i, omega arith, there))
]

pub total-le {ℓ} :
    {A : Type ℓ} (v w : A → ℕ) (f : ℕ → A) (n : ℕ)
    → ((a : A) → v a ≤ w a)
    → total v n f ≤ total w n f
unfolding total
total-le v w f zero h = omega arith
total-le v w f (suc n) h = omega (arith, h (f n), total-le v w f n h)
