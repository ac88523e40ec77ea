-- ===== src/Examples/Memory.antt =====
-- The attribute array and the function list on small worlds.
use gopkcs.Prelude.{ℕ, ◌<◌, ◌≡◌, ◌≢◌, true, List, [], ◌∷◌, arith, ◌==◌, if◌then◌else◌}
use gopkcs.Examples.Worlds.{plain_world}
use gopkcs.Machine.Effects.{World, ok}
use gopkcs.Types.{Attribute}
use gopkcs.Arena.{unmarshal_attributes, marshal_attributes}
use gopkcs.Arena.Pins.{ArePinned}
use gopkcs.Arena.Marshal.{
  template, contents, marshal_attributes-template, marshal_attributes-ArePinned,
}
use gopkcs.Arena.Unmarshal.{AreFrom, unmarshal_attributes-AreFrom}
use gopkcs.Machine.Laws.{elem}

abbrev world : World (Unit {0})
world = plain_world 1000 tt

-- CKA_LABEL with three bytes, and CKA_ID with none.
abbrev label : Attribute
label = record { type = 3; value = record { ptr = 600; len = 3 } }

abbrev id : Attribute
id = record { type = 0x102; value = record { ptr = 0; len = 0 } }

marshal_attributes-template_example :
    (p : ℕ) × (w' : World (Unit {0})) × (marshal_attributes 0 (label ∷ id ∷ []) world
      ≡ ok (p, 2) w')
    × (template w'.mem p 2 ≡ contents world.mem (label ∷ id ∷ []))
    × ((x : ℕ) → x < 1000 → w'.mem x ≡ world.mem x)
marshal_attributes-template_example =
    marshal_attributes-template 0 (label ∷ id ∷ []) world (omega arith)
      (
        record { type = omega arith; ptr = omega arith; len = omega arith },
        (record { type = omega arith; ptr = omega arith; len = omega arith }, tt),
      )
      (omega arith, (omega arith, tt))

marshal_attributes-ArePinned_example :
    (p : ℕ) × (w' : World (Unit {0})) × (marshal_attributes 0 (label ∷ id ∷ []) world
      ≡ ok (p, 2) w')
    × (elem p (w'.pins 0) ≡ true)
    × ArePinned w'.pins 0 (label ∷ id ∷ [])
    × ((x : ℕ) → 0 ≢ x → w'.pins x ≡ [])
marshal_attributes-ArePinned_example =
    marshal_attributes-ArePinned 0 label (id ∷ []) world (omega arith)

-- An array in which the module reports two bytes for a buffer of four.
abbrev answered : World (Unit {0})
answered = record world { mem = λ x. if x == 516 then 2 else 0 }

unmarshal_attributes-AreFrom_example :
    (attrs : List Attribute) × (unmarshal_attributes 500
        (record { ptr = 600; len = 4 } ∷ [])
        answered
      ≡ ok attrs answered)
    × AreFrom answered 500 (record { ptr = 600; len = 4 } ∷ []) attrs
unmarshal_attributes-AreFrom_example =
    unmarshal_attributes-AreFrom 500 (record { ptr = 600; len = 4 } ∷ []) answered
