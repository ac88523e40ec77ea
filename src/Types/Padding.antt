-- ===== src/Types/Padding.antt =====
-- Fixed-width strings: trimPaddedString of types.go and padString of pkcs11.go.
use gopkcs.Prelude.{
  ℕ, zero, suc, ◌-◌, ◌+◌, ◌-◌, ◌≤◌, ◌<◌, ◌≡◌, ◌≢◌, refl, ap, ◌∙◌, sym, inl, inr, List, [], ◌∷◌,
  ◌++◌, arith, length, get_or, take, replicate, ◌==◌, if◌then◌else◌, Bool-cases, length-replicate,
  length-take,
}

abbrev pub space : ℕ
space = b' '

-- `for end > 0 && b[end-1] == ' ' { end-- }`
trim_end : List ℕ → ℕ → ℕ
trim_end b zero = zero
trim_end b (suc e) = if get_or b e 0 == space then trim_end b e else suc e

unfoldable pub trim_padded_string : List ℕ → List ℕ
unfolding trim_end
trim_padded_string b = take (trim_end b (length b)) b

-- Go's `copy(dst, src)`: the new content of `dst`.
unfoldable pub copy : List ℕ → List ℕ → List ℕ
copy [] src = []
copy (d ∷ ds) [] = d ∷ ds
copy (d ∷ ds) (s ∷ ss) = s ∷ copy ds ss

unfoldable pub pad_string : List ℕ → ℕ → List ℕ
unfolding copy
pad_string s n = copy (replicate n space) s

length-copy : (ds ss : List ℕ) → length (copy ds ss) ≡ length ds
unfolding copy
length-copy [] ss = refl
length-copy (d ∷ ds) [] = refl
length-copy (d ∷ ds) (s ∷ ss) = ap suc (length-copy ds ss)

pub length-pad_string : (s : List ℕ) (n : ℕ) → length (pad_string s n) ≡ n
length-pad_string s n =
    unfold pad_string in (length-copy (replicate n space) s ∙ length-replicate n space)

-- A text has no trailing space.
abbrev pub IsTrimmed : List ℕ → Type 0
IsTrimmed b = (e : ℕ) → length b ≡ suc e → get_or b e 0 ≢ space

-- Where the loop stops: all after it is spaces, and the byte before it is none.
record Stops (b : List ℕ) (from to : ℕ) : Type 0 where
  within : to ≤ from
  spaces : (i : ℕ) → to ≤ i → i < from → get_or b i 0 ≡ space
  last : (e : ℕ) → to ≡ suc e → get_or b e 0 ≢ space

trim_end-Stops : (b : List ℕ) (e : ℕ) → Stops b e (trim_end b e)
unfolding trim_end
trim_end-Stops b zero = record {
  within = omega arith;
  spaces = λ i h k. absurd (omega arith);
  last = λ e h. absurd (omega arith);
}
trim_end-Stops b (suc e) = elim (Bool-cases (get_or b e 0 == space)) [
  | inl hit ↦ rw hit (record {
    within = ground (arith, (trim_end-Stops b e).within);
    spaces = λ i h k. ground (arith, (trim_end-Stops b e).spaces i);
    last = (trim_end-Stops b e).last;
  })
  | inr miss ↦ rw miss (record {
    within = omega arith;
    spaces = λ i h k. absurd (omega arith);
    last = λ d h. ground arith;
  })
]

Stops-unique : (b : List ℕ) (from x y : ℕ) → Stops b from x → Stops b from y → x ≤ y
Stops-unique b from zero y p q = omega arith
Stops-unique b from (suc x) y p q = ground (arith, p.last x refl, q.spaces x, p.within)

get_or-copy_spaces_below :
    (n : ℕ) (s : List ℕ) (i : ℕ)
    → length s ≤ n
    → i < length s
    → get_or (copy (replicate n space) s) i 0 ≡ get_or s i 0
unfolding copy
get_or-copy_spaces_below n [] i h k = absurd (omega arith)
get_or-copy_spaces_below zero (b ∷ s) i h k = absurd (omega arith)
get_or-copy_spaces_below (suc n) (b ∷ s) zero h k = refl
get_or-copy_spaces_below (suc n) (b ∷ s) (suc i) h k =
    get_or-copy_spaces_below n s i (omega arith) (omega arith)

get_or-replicate : (n i : ℕ) → i < n → get_or (replicate n space) i 0 ≡ space
get_or-replicate zero i h = absurd (omega arith)
get_or-replicate (suc n) zero h = refl
get_or-replicate (suc n) (suc i) h = get_or-replicate n i (omega arith)

get_or-copy_spaces_above :
    (n : ℕ) (s : List ℕ) (i : ℕ)
    → length s ≤ i
    → i < n
    → get_or (copy (replicate n space) s) i 0 ≡ space
unfolding copy
get_or-copy_spaces_above zero s i h k = absurd (omega arith)
get_or-copy_spaces_above (suc n) [] i h k = get_or-replicate (suc n) i k
get_or-copy_spaces_above (suc n) (b ∷ s) zero h k = absurd (omega arith)
get_or-copy_spaces_above (suc n) (b ∷ s) (suc i) h k =
    get_or-copy_spaces_above n s i (omega arith) (omega arith)

take-copy_spaces :
    (n : ℕ) (s : List ℕ) → length s ≤ n → take (length s) (copy (replicate n space) s) ≡ s
unfolding copy
take-copy_spaces n [] h = refl
take-copy_spaces zero (b ∷ s) h = absurd (omega arith)
take-copy_spaces (suc n) (b ∷ s) h = ap (◌∷◌ b) (take-copy_spaces n s (omega arith))

copy-Stops :
    (n : ℕ) (s : List ℕ)
    → length s ≤ n
    → IsTrimmed s
    → Stops (copy (replicate n space) s) n (length s)
copy-Stops n s h t = record {
  within = h;
  spaces = λ i p q. get_or-copy_spaces_above n s i p q;
  last = λ e p q. t e p (sym (get_or-copy_spaces_below n s e h (omega arith)) ∙ q);
}

-- trimPaddedString undoes padString for a text that fits the width and does not end in a space.
pub trim_padded_string-pad_string :
    (s : List ℕ) (n : ℕ) → length s ≤ n → IsTrimmed s → trim_padded_string (pad_string s n) ≡ s
trim_padded_string-pad_string s n h t =
    unfold trim_padded_string pad_string in
    (rw (length-copy (replicate n space) s, length-replicate n space)
      (rw stops (take-copy_spaces n s h)))
  where
    b : List ℕ
    b = copy (replicate n space) s

    stops : trim_end b n ≡ length s
    stops = omega (
      arith,
      Stops-unique b n (trim_end b n) (length s) (trim_end-Stops b n) (copy-Stops n s h t),
      Stops-unique b n (length s) (trim_end b n) (copy-Stops n s h t) (trim_end-Stops b n),
    )

split_spaces :
    (b : List ℕ) (e k : ℕ)
    → length b ≡ e + k
    → ((i : ℕ) → e ≤ i → i < length b → get_or b i 0 ≡ space)
    → b ≡ take e b ++ replicate k space
split_spaces [] zero zero h f = refl
split_spaces [] zero (suc k) h f = absurd (omega arith)
split_spaces [] (suc e) k h f = absurd (omega arith)
split_spaces (x ∷ b) zero zero h f = absurd (omega arith)
split_spaces (x ∷ b) zero (suc k) h f =
    let here : x ≡ space = f 0 (omega arith) (omega arith) in
    let rest : b ≡ replicate k space =
      split_spaces b zero k (omega arith) (λ i p q. f (suc i) (omega arith) (omega arith)) in
    cc
split_spaces (x ∷ b) (suc e) k h f =
    ap (◌∷◌ x) (split_spaces b e k (omega arith) (λ i p q. f (suc i) (omega arith) (omega arith)))

length-take_le : (n : ℕ) (b : List ℕ) → n ≤ length b → length (take n b) ≡ n
length-take_le n b h = omega (arith, length-take n b)

get_or-take : (n : ℕ) (b : List ℕ) (i : ℕ) → i < n → get_or (take n b) i 0 ≡ get_or b i 0
get_or-take zero b i h = absurd (omega arith)
get_or-take (suc n) [] i h = refl
get_or-take (suc n) (x ∷ b) zero h = refl
get_or-take (suc n) (x ∷ b) (suc i) h = get_or-take n b i (omega arith)

-- trimPaddedString removes spaces from the end of its argument and nothing else, and its result
-- does not end in a space.
pub trim_padded_string_lem :
    (b : List ℕ)
    → (k : ℕ) × (b ≡ trim_padded_string b ++ replicate k space) × IsTrimmed (trim_padded_string b)
unfolding trim_padded_string
trim_padded_string_lem b = (
  length b - trim_end b (length b),
  split_spaces b _ _ (omega (arith, stops.within)) stops.spaces,
  λ e h q. stops.last e (sym size ∙ h) (sym (get_or-take _ b e (omega (arith, size))) ∙ q),
)
  where
    stops : Stops b (length b) (trim_end b (length b))
    stops = trim_end-Stops b (length b)

    size : length (take (trim_end b (length b)) b) ≡ trim_end b (length b)
    size = length-take_le _ b stops.within
