-- ===== src/Arena/Unmarshal.antt =====
-- unmarshalAttributes, whatever the module has written into the array.
use gopkcs.Prelude.{
  ℕ, ◌+◌, ◌≤◌, ◌<◌, ◌≡◌, refl, ◌⊎◌, inl, inr, ◌&&◌, List, [], ◌∷◌, arith, ltb, leb, if◌then◌else◌,
  Bool-cases,
}
use gopkcs.Machine.Words.{load_word}
use gopkcs.Machine.Effects.{Slice, nil, World, ok, get_word}
use gopkcs.Types.{Attribute}
use gopkcs.Arena.{unmarshal_attributes}

-- The value is the start of the buffer, of the length that the module reports, if that is not 0 and
-- the buffer has as much; otherwise it is nil.
abbrev pub IsFrom : ℕ → Slice → Slice → Type 0
IsFrom reported buffer value =
    ((0 < reported)
      × (reported ≤ buffer.len)
      × (value ≡ record { ptr = buffer.ptr; len = reported }))
    ⊎ (((reported ≡ 0) ⊎ (buffer.len < reported)) × (value ≡ nil))

-- The same of all attributes of the array at `off`, with their types.
abbrev pub AreFrom : {S : Type 0} → World S → ℕ → List Slice → List Attribute → Type 0
AreFrom w off [] [] = Unit
AreFrom w off [] (a ∷ attrs) = ⊥
AreFrom w off (v ∷ vs) [] = ⊥
AreFrom w off (v ∷ vs) (a ∷ attrs) =
    (a.type ≡ load_word w.mem off)
    × IsFrom (load_word w.mem (off + 16)) v a.value
    × AreFrom w (off + 24) vs attrs

chosen :
    (n : ℕ) (v : Slice)
    → IsFrom n v (if ltb 0 n && leb n v.len then record { ptr = v.ptr; len = n } else nil)
chosen n v = elim (Bool-cases (ltb 0 n)) [
  | inl some_bytes ↦ elim (Bool-cases (leb n v.len)) [
    | inl fits ↦ inl (ground arith, ground arith, rw (some_bytes, fits) refl)
    | inr over ↦ inr (inr (ground arith), rw (some_bytes, over) refl)
  ]
  | inr no_bytes ↦ inr (inl (ground arith), rw no_bytes refl)
]

-- Whatever the module has written into the array, unmarshalAttributes returns one attribute for
-- each buffer, with the type from the array and as value the start of the buffer of the length
-- reported, or nil where that length is 0 or exceeds the buffer, and changes nothing.
pub unmarshal_attributes-AreFrom :
    {S : Type 0} (off : ℕ) (values : List Slice) (w : World S)
    → (attrs : List Attribute) × (unmarshal_attributes off values w ≡ ok attrs w)
      × AreFrom w off values attrs
unfolding unmarshal_attributes get_word
unmarshal_attributes-AreFrom off [] w = ([], refl, tt)
unmarshal_attributes-AreFrom off (v ∷ vs) w =
    let (attrs, run, from) = unmarshal_attributes-AreFrom (off + 24) vs w in
    let n : ℕ = load_word w.mem (off + 16) in
    (
      record {
        type = load_word w.mem off;
        value = if ltb 0 n && leb n v.len then record { ptr = v.ptr; len = n } else nil;
      }
          ∷ attrs,
      rw run refl,
      (refl, chosen n v, from),
    )
