-- ===== src/Text/Kept.antt =====
-- What holds of every byte of a text holds of every byte of its parts.
use gopkcs.Prelude.{
  ℕ, zero, suc, ◌-◌, inl, inr, Bool, true, false, ◌&&◌, List, [], ◌∷◌, ◌++◌, if◌then◌else◌,
  Bool-cases, length, All, All-append, All-take, All-drop,
}
use gopkcs.Text.{
  Bytes, is_empty, is_space, has_prefix, has_suffix, trim_prefix, trim_suffix, trim_left,
  trim_right, trim_space, fields_from, fields, join, replace_from, replace_all,
}

module _ (P : ℕ → Type 0) where
  pub All-if : (b : Bool) (s t : Bytes) → All P s → All P t → All P (if b then s else t)
  All-if true s t h k = h
  All-if false s t h k = k

  pub All-trim_prefix : (s p : Bytes) → All P s → All P (trim_prefix s p)
  All-trim_prefix s p h = All-if (has_prefix s p) _ s (All-drop P (length p) s h) h

  pub All-trim_suffix : (s p : Bytes) → All P s → All P (trim_suffix s p)
  All-trim_suffix s p h = All-if (has_suffix s p) _ s (All-take P (length s - length p) s h) h

  All-trim_left : (s : Bytes) → All P s → All P (trim_left s)
  unfolding trim_left
  All-trim_left [] h = tt
  All-trim_left (c ∷ s) (p, h) = All-if (is_space c) _ _ (All-trim_left s h) (p, h)

  All-trim_right : (s : Bytes) → All P s → All P (trim_right s)
  unfolding trim_right
  All-trim_right [] h = tt
  All-trim_right (c ∷ s) (p, h) =
      All-if (is_space c && is_empty (trim_right s)) [] (c ∷ trim_right s) tt
        (p, All-trim_right s h)

  pub All-trim_space : (s : Bytes) → All P s → All P (trim_space s)
  unfolding trim_space
  All-trim_space s h = All-trim_right (trim_left s) (All-trim_left s h)

  All-fields_from : (field s : Bytes) → All P field → All P s → All (All P) (fields_from field s)
  unfolding fields_from
  All-fields_from field [] f h = elim (Bool-cases (is_empty field)) [
    | inl e ↦ rw e tt
    | inr e ↦ rw e (f, tt)
  ]
  All-fields_from field (c ∷ s) f (p, h) =
      let next = All-fields_from [] s tt h in
      elim (Bool-cases (is_space c)) [
        | inl e ↦ elim (Bool-cases (is_empty field)) [
          | inl e' ↦ rw (e, e') next
          | inr e' ↦ rw (e, e') (f, next)
        ]
        | inr e ↦
            rw e (All-fields_from (field ++ c ∷ []) s (All-append P field (c ∷ []) f (p, tt)) h)
      ]

  pub All-fields : (s : Bytes) → All P s → All (All P) (fields s)
  unfolding fields
  All-fields s h = All-fields_from [] s tt h

  pub All-join : (ps : List Bytes) (sep : Bytes) → All (All P) ps → All P sep → All P (join ps sep)
  unfolding join
  All-join [] sep h k = tt
  All-join (p ∷ []) sep h k = h.0
  All-join (p ∷ q ∷ ps) sep (h, hs) k =
      All-append P (p ++ sep) _ (All-append P p sep h k) (All-join (q ∷ ps) sep hs k)

  All-replace_from :
      (old new : Bytes) (skip : ℕ) (s : Bytes)
      → All P new
      → All P s
      → All P (replace_from old new skip s)
  unfolding replace_from
  All-replace_from old new skip [] n h = tt
  All-replace_from old new (suc skip) (c ∷ s) n (p, h) = All-replace_from old new skip s n h
  All-replace_from old new zero (c ∷ s) n (p, h) =
      All-if (has_prefix (c ∷ s) old) _ _
        (All-append P new _ n (All-replace_from old new (length old - 1) s n h))
        (p, All-replace_from old new zero s n h)

  pub All-replace_all : (s old new : Bytes) → All P s → All P new → All P (replace_all s old new)
  unfolding replace_all
  All-replace_all s old new h n = All-replace_from old new 0 s n h
