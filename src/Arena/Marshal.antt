-- ===== src/Arena/Marshal.antt =====
-- marshalAttributes: what it returns, what the module finds, and what is pinned.
use gopkcs.Prelude.{
  ℕ, zero, suc, ◌+◌, ◌*◌, ◌≤◌, ◌<◌, ◌≡◌, refl, ap, ◌∙◌, ◌≢◌, inl, inr, true, List, [], ◌∷◌, map,
  arith, ltb, Bool-cases, length, replicate, length-replicate, All,
}
use gopkcs.Machine.Bytes.{Memory, store, load, load-congr, store-outside}
use gopkcs.Machine.Effects.{World, ok, pin, set_pins, max_alloc}
use gopkcs.Machine.Laws.{elem, make_bytes_run}
use gopkcs.Types.{Attribute}
use gopkcs.Arena.{marshal_attributes}
use gopkcs.Arena.Layout.{
  Entry, read_entries, entry_of, IsZero, IsWords, entries_memory, entries_pins, put_attributes_lem,
  entries_memory-outside, read_entries-entries_memory,
}
use gopkcs.Arena.Pins.{ArePinned, entries_pins-ArePinned, entries_pins_ne, entries_pins_keeps}

pub IsZero-replicate : (m : Memory) (p n : ℕ) → IsZero (store m p (replicate n 0)) p n
unfolding store
IsZero-replicate m p zero x l u = absurd (omega arith)
IsZero-replicate m p (suc n) x l u = ground (arith, IsZero-replicate m (suc p) n x)

-- The world after a successful call on attributes that are not none.
marshalled : {S : Type 0} → ℕ → List Attribute → World S → World S
marshalled o attrs w = record w {
  mem = entries_memory (store w.mem w.next (replicate (length attrs * 24) 0)) w.next attrs;
  next = w.next + suc (length attrs * 24);
  pins = entries_pins (set_pins w.pins o (w.next ∷ w.pins o)) o attrs;
}

marshal_attributes_run :
    {S : Type 0} (o : ℕ) (a : Attribute) (rest : List Attribute) (w : World S)
    → length (a ∷ rest) * 24 ≤ max_alloc
    → marshal_attributes o (a ∷ rest) w ≡ ok (w.next, length (a ∷ rest)) (marshalled o (a ∷ rest) w)
unfolding marshal_attributes marshalled pin
marshal_attributes_run o a rest w h =
    rw (make_bytes_run (length (a ∷ rest) * 24) w h, put_attributes_lem o w.next (a ∷ rest)) refl

-- The attribute types and value bytes that C code reads through the array at `p`.
pub template : Memory → ℕ → ℕ → List (ℕ × List ℕ)
template m p n = map (λ e. (e.type, load m e.p_value e.value_len)) (read_entries m p n)

-- The same of Go attributes.
unfoldable pub contents : Memory → List Attribute → List (ℕ × List ℕ)
contents m attrs = map (λ a. (a.type, load m a.value.ptr a.value.len)) attrs

-- A value lies in memory that has been handed out.
abbrev pub IsBelow : ℕ → Attribute → Type 0
IsBelow next a = a.value.ptr + a.value.len ≤ next

load-entry_of :
    (m k : Memory) (next : ℕ) (a : Attribute)
    → ((x : ℕ) → x < next → m x ≡ k x)
    → IsBelow next a
    → load m (entry_of a).p_value a.value.len ≡ load k a.value.ptr a.value.len
unfolding load
load-entry_of m k next a same below = elim (Bool-cases (ltb 0 a.value.len)) [
  | inl hit ↦ rw hit (load-congr m k a.value.ptr a.value.len (λ x l u. same x (omega arith)))
  | inr miss ↦ let none_left : a.value.len ≡ 0 = ground arith in rw (miss, none_left) refl
]

contents-entries :
    (m k : Memory) (next : ℕ) (attrs : List Attribute)
    → ((x : ℕ) → x < next → m x ≡ k x)
    → All (IsBelow next) attrs
    → map (λ (e : Entry). (e.type, load m e.p_value e.value_len)) (map entry_of attrs)
      ≡ contents k attrs
unfolding contents
contents-entries m k next [] same below = refl
contents-entries m k next (a ∷ rest) same below =
    cc (load-entry_of m k next a same below.0, contents-entries m k next rest same below.1)

module _ {S : Type 0} (o : ℕ) (a : Attribute) (rest : List Attribute) (w : World S) where
  marshalled-mem : (x : ℕ) → x < w.next → (marshalled o (a ∷ rest) w).mem x ≡ w.mem x
  unfolding marshalled
  marshalled-mem x h =
      entries_memory-outside _ w.next (a ∷ rest) x (omega arith)
      ∙ store-outside w.mem w.next (replicate (length (a ∷ rest) * 24) 0) x
          (omega (arith, length-replicate {A = ℕ} (length (a ∷ rest) * 24) 0))

  -- The array alone: NULL stands for an empty value.
  read_entries-marshalled :
      All IsWords (a ∷ rest)
      → read_entries (marshalled o (a ∷ rest) w).mem w.next (length (a ∷ rest))
        ≡ map entry_of (a ∷ rest)
  unfolding marshalled
  read_entries-marshalled words =
      read_entries-entries_memory _ w.next (a ∷ rest) words (IsZero-replicate w.mem w.next _)

  template-marshalled :
      All IsWords (a ∷ rest)
      → All (IsBelow w.next) (a ∷ rest)
      → template (marshalled o (a ∷ rest) w).mem w.next (length (a ∷ rest))
        ≡ contents w.mem (a ∷ rest)
  unfolding template
  template-marshalled words below =
      ap (map _) (read_entries-marshalled words)
      ∙ contents-entries (marshalled o (a ∷ rest) w).mem w.mem w.next (a ∷ rest) marshalled-mem
          below

-- marshalAttributes, for attributes whose values lie in memory in use and an array within the
-- allocation limit: it succeeds, C code that reads the array finds the attributes' types and
-- value bytes in order, and memory that was in use is unchanged.
pub marshal_attributes-template :
    {S : Type 0} (o : ℕ) (attrs : List Attribute) (w : World S)
    → length attrs * 24 ≤ max_alloc
    → All IsWords attrs
    → All (IsBelow w.next) attrs
    → (p : ℕ) × (w' : World S) × (marshal_attributes o attrs w ≡ ok (p, length attrs) w')
      × (template w'.mem p (length attrs) ≡ contents w.mem attrs)
      × ((x : ℕ) → x < w.next → w'.mem x ≡ w.mem x)
unfolding marshal_attributes template contents read_entries
marshal_attributes-template o [] w small words below = (0, w, refl, refl, λ x h. refl)
marshal_attributes-template o (a ∷ rest) w small words below = (
  w.next,
  marshalled o (a ∷ rest) w,
  marshal_attributes_run o a rest w small,
  template-marshalled o a rest w words below,
  marshalled-mem o a rest w,
)

-- marshalAttributes, for at least one attribute and an array within the allocation limit: the
-- arena's pinner holds the array and every value that is not empty, and other pinners are
-- unchanged.
pub marshal_attributes-ArePinned :
    {S : Type 0} (o : ℕ) (a : Attribute) (rest : List Attribute) (w : World S)
    → length (a ∷ rest) * 24 ≤ max_alloc
    → (p : ℕ) × (w' : World S) × (marshal_attributes o (a ∷ rest) w ≡ ok (p, length (a ∷ rest)) w')
      × (elem p (w'.pins o) ≡ true)
      × ArePinned w'.pins o (a ∷ rest)
      × ((x : ℕ) → o ≢ x → w'.pins x ≡ w.pins x)
unfolding marshalled
marshal_attributes-ArePinned o a rest w small = (
  w.next,
  marshalled o (a ∷ rest) w,
  marshal_attributes_run o a rest w small,
  entries_pins_keeps pins o w.next (a ∷ rest) (ground arith),
  entries_pins-ArePinned pins o (a ∷ rest),
  λ x h. entries_pins_ne pins o x (a ∷ rest) h ∙ ground arith,
)
  where
    pins : ℕ → List ℕ
    pins = set_pins w.pins o (w.next ∷ w.pins o)
