-- ===== src/Ctx/Objects/Values.antt =====
-- What GetAttributeValue reads back after each pass.
use gopkcs.Prelude.{
  ℕ, ◌+◌, ◌<◌, ◌≡◌, refl, sym, ap, ◌⊎◌, inl, inr, true, ◌&&◌, List, [], ◌∷◌, arith, ltb, leb,
  if◌then◌else◌, Bool-cases, length,
}
use mathlib.Core.Path.{ap₂}
use gopkcs.Machine.Bytes.{Memory, load}
use gopkcs.Machine.Effects.{Slice, nil, World, ok, get_word}
use gopkcs.Types.{Attribute}
use gopkcs.Arena.{query_sizes, unmarshal_attributes}
use gopkcs.Arena.Marshal.{contents}
use gopkcs.Ctx.Objects.Answers.{Answered}
use gopkcs.Ctx.Objects.Buffered.{sizes_of, Filled}

eq-nil : (bs : List ℕ) → length bs ≡ 0 → bs ≡ []
eq-nil [] h = refl
eq-nil (b ∷ bs) h = absurd (omega arith)

module _ (value : ℕ → List ℕ) where
  -- Types and values in the order of the template.
  abbrev pub values_of : List Attribute → List (ℕ × List ℕ)
  values_of [] = []
  values_of (a ∷ rest) = (a.type, value a.type) ∷ values_of rest

  -- One attribute.
  value_lem :
      (m : Memory) (a : Attribute) (v : Slice)
      → v.len ≡ length (value a.type)
      → (length (value a.type) ≡ 0) ⊎ (0 < v.ptr)
      → (v.ptr ≡ 0) ⊎ (load m v.ptr (length (value a.type)) ≡ value a.type)
      → (s : Slice)
      → s ≡ (
          if ltb 0 (length (value a.type)) && leb (length (value a.type)) v.len
          then record { ptr = v.ptr; len = length (value a.type) }
          else nil)
      → load m s.ptr s.len ≡ value a.type
  unfolding load
  value_lem m a v size used loaded s e = elim (Bool-cases (ltb 0 (length (value a.type)))) [
    | inr miss ↦
        let none_left : length (value a.type) ≡ 0 = ground arith in
        let empty : s ≡ nil = rw miss at e in rw empty (sym (eq-nil (value a.type) none_left))
    | inl hit ↦ elim loaded [
      | inl null ↦ absurd (ground arith)
      | inr bytes ↦
          let fits : leb (length (value a.type)) v.len ≡ true = ground arith in
          let whole : s ≡ record { ptr = v.ptr; len = length (value a.type) } =
            rw (hit, fits) at e in
          rw whole bytes
    ]
  ]

module _ {S : Type 0} (value : ℕ → List ℕ) where
  pub query_sizes_run :
      (off : ℕ) (attrs : List Attribute) (vs : List Slice) (w : World S)
      → Answered value w.mem off attrs vs
      → query_sizes off (length attrs) w ≡ ok (sizes_of value attrs) w
  unfolding query_sizes get_word
  query_sizes_run off [] [] w h = refl
  query_sizes_run off [] (v ∷ vs) w h = absurd h
  query_sizes_run off (a ∷ attrs) [] w h = absurd h
  query_sizes_run off (a ∷ attrs) (v ∷ vs) w (t, l, x, h) =
      rw (l, query_sizes_run (off + 24) attrs vs w h) refl

  pub unmarshal_attributes_run :
      (off : ℕ) (attrs : List Attribute) (vs : List Slice) (w : World S)
      → Answered value w.mem off attrs vs
      → Filled value attrs vs
      → (got : List Attribute) × (unmarshal_attributes off vs w ≡ ok got w)
        × (contents w.mem got ≡ values_of value attrs)
  unfolding unmarshal_attributes get_word contents
  unmarshal_attributes_run off [] [] w h f = ([], refl, refl)
  unmarshal_attributes_run off [] (v ∷ vs) w h f = absurd h
  unmarshal_attributes_run off (a ∷ attrs) [] w h f = absurd h
  unmarshal_attributes_run off (a ∷ attrs) (v ∷ vs) w (t, l, x, h) (size, used, f) =
      let (got, run, same) = unmarshal_attributes_run (off + 24) attrs vs w h f in
      let n : ℕ = length (value a.type) in
      let s : Slice = if ltb 0 n && leb n v.len then record { ptr = v.ptr; len = n } else nil in
      (
        record { type = a.type; value = s } ∷ got,
        rw (t, l, run) refl,
        ap₂ ◌∷◌ (ap (λ b. (a.type, b)) (value_lem value w.mem a v size used x s refl)) same,
      )
