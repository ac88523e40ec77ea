-- ===== src/Arena/Pins.antt =====
-- What a call of marshalAttributes pins.
use gopkcs.Prelude.{ℕ, ◌<◌, ◌≡◌, refl, ◌∙◌, ◌≢◌, true, List, [], ◌∷◌, arith}
use gopkcs.Machine.Laws.{elem}
use gopkcs.Types.{Attribute}
use gopkcs.Arena.Layout.{entry_pins, entries_pins}

entry_pins_ne : (f : ℕ → List ℕ) (o x : ℕ) (a : Attribute) → o ≢ x → entry_pins f o a x ≡ f x
unfolding entry_pins
entry_pins_ne f o x a h = ground arith

-- Other pinners keep what they hold.
pub entries_pins_ne :
    (f : ℕ → List ℕ) (o x : ℕ) (attrs : List Attribute) → o ≢ x → entries_pins f o attrs x ≡ f x
unfolding entries_pins
entries_pins_ne f o x [] h = refl
entries_pins_ne f o x (a ∷ rest) h =
    entries_pins_ne (entry_pins f o a) o x rest h ∙ entry_pins_ne f o x a h

entry_pins_keeps :
    (f : ℕ → List ℕ) (o p : ℕ) (a : Attribute)
    → elem p (f o) ≡ true
    → elem p (entry_pins f o a o) ≡ true
unfolding entry_pins
entry_pins_keeps f o p a h = ground arith

-- Nothing is unpinned.
pub entries_pins_keeps :
    (f : ℕ → List ℕ) (o p : ℕ) (attrs : List Attribute)
    → elem p (f o) ≡ true
    → elem p (entries_pins f o attrs o) ≡ true
unfolding entries_pins
entries_pins_keeps f o p [] h = h
entries_pins_keeps f o p (a ∷ rest) h =
    entries_pins_keeps (entry_pins f o a) o p rest (entry_pins_keeps f o p a h)

-- Every value that is not empty is held by the pinner.
abbrev pub ArePinned : (ℕ → List ℕ) → ℕ → List Attribute → Type 0
ArePinned f o [] = Unit
ArePinned f o (a ∷ rest) = (0 < a.value.len → elem a.value.ptr (f o) ≡ true) × ArePinned f o rest

entry_pins_self :
    (f : ℕ → List ℕ) (o : ℕ) (a : Attribute)
    → 0 < a.value.len
    → elem a.value.ptr (entry_pins f o a o) ≡ true
unfolding entry_pins
entry_pins_self f o a h = ground arith

pub entries_pins-ArePinned :
    (f : ℕ → List ℕ) (o : ℕ) (attrs : List Attribute) → ArePinned (entries_pins f o attrs) o attrs
unfolding entries_pins
entries_pins-ArePinned f o [] = tt
entries_pins-ArePinned f o (a ∷ rest) = (
  λ h. entries_pins_keeps (entry_pins f o a) o a.value.ptr rest (entry_pins_self f o a h),
  entries_pins-ArePinned (entry_pins f o a) o rest,
)
