-- ===== src/Arena/Layout.antt =====
-- What the module reads in an array built by marshalAttributes.
use gopkcs.Prelude.{
  ℕ, zero, suc, ◌+◌, ◌*◌, ◌^◌, ◌≤◌, ◌<◌, ◌≡◌, refl, ◌∙◌, ◌⊎◌, inl, inr, List, [], ◌∷◌, map, arith,
  ltb, if◌then◌else◌, Bool-cases, length, All,
}
use mathlib.Core.Path.{ap₂}
use gopkcs.Machine.Bytes.{Memory}
use gopkcs.Machine.Words.{
  load_word-congr, load_word-store_word_apart, load_word-store_word_self, load_word, store_word,
  store_word-outside,
}
use gopkcs.Machine.Effects.{World, ok, set_pins, pin, put_word}
use gopkcs.Types.{Attribute}
use gopkcs.Arena.{put_attributes, put_attribute}

-- One CK_ATTRIBUTE as C code reads it.
pub record Entry : Type 0 where
  pub type : ℕ
  pub p_value : ℕ
  pub value_len : ℕ

unfoldable pub read_entry : Memory → ℕ → Entry
read_entry m p = record {
  type = load_word m p;
  p_value = load_word m (p + 8);
  value_len = load_word m (p + 16);
}

unfoldable pub read_entries : Memory → ℕ → ℕ → List Entry
read_entries m p zero = []
read_entries m p (suc n) = read_entry m p ∷ read_entries m (p + 24) n

-- What C code has to find for a Go attribute: NULL for an empty value.
abbrev pub entry_of : Attribute → Entry
entry_of a = record {
  type = a.type;
  p_value = if ltb 0 a.value.len then a.value.ptr else 0;
  value_len = a.value.len;
}

abbrev pub IsZero : Memory → ℕ → ℕ → Type 0
IsZero m p n = (x : ℕ) → p ≤ x → x < p + n → m x ≡ 0

-- The fields of an attribute are machine words.
pub record IsWords (a : Attribute) : Type 0 where
  pub type : a.type < 2 ^ 64
  pub ptr : a.value.ptr < 2 ^ 64
  pub len : a.value.len < 2 ^ 64

-- The memory after `put_attribute`.
entry_memory : Memory → ℕ → Attribute → Memory
entry_memory m off a =
    store_word
      (if ltb 0 a.value.len
        then store_word (store_word m off a.type) (off + 8) a.value.ptr
        else store_word m off a.type)
      (off + 16) a.value.len

pub entries_memory : Memory → ℕ → List Attribute → Memory
entries_memory m off [] = m
entries_memory m off (a ∷ rest) = entries_memory (entry_memory m off a) (off + 24) rest

-- The addresses held by the pinners after `put_attribute`.
unfoldable pub entry_pins : (ℕ → List ℕ) → ℕ → Attribute → ℕ → List ℕ
entry_pins f o a = if ltb 0 a.value.len then set_pins f o (a.value.ptr ∷ f o) else f

unfoldable pub entries_pins : (ℕ → List ℕ) → ℕ → List Attribute → ℕ → List ℕ
entries_pins f o [] = f
entries_pins f o (a ∷ rest) = entries_pins (entry_pins f o a) o rest

module _ {S : Type 0} (o : ℕ) where
  put_attribute_lem :
      (off : ℕ) (a : Attribute) (w : World S)
      → put_attribute o off a w
        ≡ ok tt (record w { mem = entry_memory w.mem off a; pins = entry_pins w.pins o a })
  unfolding put_attribute entry_memory entry_pins put_word pin
  put_attribute_lem off a w = ground arith

  pub put_attributes_lem :
      (off : ℕ) (attrs : List Attribute) (w : World S)
      → put_attributes o off attrs w
        ≡ ok tt
            (record w { mem = entries_memory w.mem off attrs; pins = entries_pins w.pins o attrs })
  unfolding put_attributes entries_memory entries_pins
  put_attributes_lem off [] w = refl
  put_attributes_lem off (a ∷ rest) w = rw (put_attribute_lem off a w) (
      put_attributes_lem (off + 24) rest
        (record w { mem = entry_memory w.mem off a; pins = entry_pins w.pins o a }))

entry_memory-outside :
    (m : Memory) (off : ℕ) (a : Attribute) (x : ℕ)
    → (x < off) ⊎ (off + 24 ≤ x)
    → entry_memory m off a x ≡ m x
unfolding entry_memory
entry_memory-outside m off a x h = ground (
  arith,
  store_word-outside
      (if ltb 0 a.value.len
        then store_word (store_word m off a.type) (off + 8) a.value.ptr
        else store_word m off a.type)
      (off + 16) a.value.len x,
  store_word-outside (store_word m off a.type) (off + 8) a.value.ptr x,
  store_word-outside m off a.type x,
)

pub entries_memory-outside :
    (m : Memory) (off : ℕ) (attrs : List Attribute) (x : ℕ)
    → (x < off) ⊎ (off + length attrs * 24 ≤ x)
    → entries_memory m off attrs x ≡ m x
unfolding entries_memory
entries_memory-outside m off [] x h = refl
entries_memory-outside m off (a ∷ rest) x h =
    entries_memory-outside (entry_memory m off a) (off + 24) rest x (omega arith)
    ∙ entry_memory-outside m off a x (omega arith)

module _ (m : Memory) (off : ℕ) (a : Attribute) (ok : IsWords a) where
  entry_memory-type : load_word (entry_memory m off a) off ≡ a.type
  unfolding entry_memory
  entry_memory-type = elim (Bool-cases (ltb 0 a.value.len)) [
    | inl hit ↦ rw hit (
        load_word-store_word_apart _ (off + 16) a.value.len off (omega arith)
        ∙ load_word-store_word_apart _ (off + 8) a.value.ptr off (omega arith)
        ∙ load_word-store_word_self m off a.type ok.type)
    | inr miss ↦ rw miss (
        load_word-store_word_apart _ (off + 16) a.value.len off (omega arith)
        ∙ load_word-store_word_self m off a.type ok.type)
  ]

  entry_memory-value_len : load_word (entry_memory m off a) (off + 16) ≡ a.value.len
  unfolding entry_memory
  entry_memory-value_len = load_word-store_word_self _ (off + 16) a.value.len ok.len

  entry_memory-p_value :
      load_word m (off + 8) ≡ 0
      → load_word (entry_memory m off a) (off + 8) ≡ (if ltb 0 a.value.len then a.value.ptr else 0)
  unfolding entry_memory
  entry_memory-p_value zero_here = elim (Bool-cases (ltb 0 a.value.len)) [
    | inl hit ↦ rw hit (
        load_word-store_word_apart _ (off + 16) a.value.len (off + 8) (omega arith)
        ∙ load_word-store_word_self _ (off + 8) a.value.ptr ok.ptr)
    | inr miss ↦ rw miss (
        load_word-store_word_apart _ (off + 16) a.value.len (off + 8) (omega arith)
        ∙ load_word-store_word_apart m off a.type (off + 8) (omega arith)
        ∙ zero_here)
  ]

read_entry-congr :
    (m k : Memory) (p : ℕ)
    → ((x : ℕ) → p ≤ x → x < p + 24 → m x ≡ k x)
    → read_entry m p ≡ read_entry k p
unfolding read_entry
read_entry-congr m k p h =
    let a : load_word m p ≡ load_word k p = load_word-congr m k p (λ x l u. h x l (omega arith)) in
    let b : load_word m (p + 8) ≡ load_word k (p + 8) =
      load_word-congr m k (p + 8) (λ x l u. h x (omega arith) (omega arith)) in
    let c : load_word m (p + 16) ≡ load_word k (p + 16) =
      load_word-congr m k (p + 16) (λ x l u. h x (omega arith) (omega arith)) in
    cc

pub load_word-IsZero : (m : Memory) (p : ℕ) → IsZero m p 8 → load_word m p ≡ 0
unfolding load_word
load_word-IsZero m p z = omega (
  arith,
  z p (omega arith) (omega arith),
  z (suc p) (omega arith) (omega arith),
  z (suc (suc p)) (omega arith) (omega arith),
  z (suc (suc (suc p))) (omega arith) (omega arith),
  z (suc (suc (suc (suc p)))) (omega arith) (omega arith),
  z (suc (suc (suc (suc (suc p))))) (omega arith) (omega arith),
  z (suc (suc (suc (suc (suc (suc p)))))) (omega arith) (omega arith),
  z (suc (suc (suc (suc (suc (suc (suc p))))))) (omega arith) (omega arith),
)

read_entry-entry_memory :
    (m : Memory) (off : ℕ) (a : Attribute)
    → IsWords a
    → IsZero m off 24
    → read_entry (entry_memory m off a) off ≡ entry_of a
unfolding read_entry
read_entry-entry_memory m off a words z =
    let null : load_word m (off + 8) ≡ 0 =
      load_word-IsZero m (off + 8) (λ x l u. z x (omega arith) (omega arith)) in
    cc (
      entry_memory-type m off a words,
      entry_memory-value_len m off a words,
      entry_memory-p_value m off a words null,
    )

-- The array reads back as the attributes that were written.
pub read_entries-entries_memory :
    (m : Memory) (off : ℕ) (attrs : List Attribute)
    → All IsWords attrs
    → IsZero m off (length attrs * 24)
    → read_entries (entries_memory m off attrs) off (length attrs) ≡ map entry_of attrs
unfolding read_entries entries_memory
read_entries-entries_memory m off [] words z = refl
read_entries-entries_memory m off (a ∷ rest) words z =
    let m' : Memory = entry_memory m off a in
    let z' : IsZero m' (off + 24) (length rest * 24) =
      λ x l u. entry_memory-outside m off a x (omega arith) ∙ z x (omega arith) (omega arith) in
    let here : read_entry (entries_memory m' (off + 24) rest) off ≡ entry_of a =
      read_entry-congr _ m' off (λ x l u. entries_memory-outside m' (off + 24) rest x (omega arith))
      ∙ read_entry-entry_memory m off a words.0 (λ x l u. z x l (omega arith)) in
    ap₂ ◌∷◌ here (read_entries-entries_memory m' (off + 24) rest words.1 z')
