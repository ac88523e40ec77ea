-- ===== src/Params/Gcm.antt =====
-- The native memory of GCMParams: what the module reads in it, what IV returns, what Free releases.
use gopkcs.Prelude.{
  ℕ, suc, ◌+◌, ◌*◌, ◌^◌, ◌≤◌, ◌<◌, ◌≡◌, refl, sym, ap, ◌∙◌, inl, inr, true, List, [], ◌∷◌, ◌++◌,
  arith, ◌==◌, if◌then◌else◌, length, replicate, count, count-append,
}
use gopkcs.Prelude.Int.{negsuc, pos, ℤ, to_u64}
use gopkcs.Machine.Bytes.{
  load-store_self, store-outside, length-load, load-store_apart, load-congr, Memory, store, load,
}
use gopkcs.Machine.Structures.{load_words-store_words, store_words-outside, store_words}
use gopkcs.Machine.Effects.{
  GcmOp, Slice, Mapping, GcmParams, World, Env, ok, put_word, put_bytes, get_bytes, allocate,
}
use gopkcs.Params.{set_gcm, addr, get_gcm, put_gcm, mmap, gcm_marshal}
use gopkcs.Machine.Words.{load_words}

-- The bytes of a slice.
abbrev pub content : Memory → Slice → List ℕ
content m s = load m s.ptr s.len

to_u64_lt : (v : ℤ) → to_u64 v < 2 ^ 64
to_u64_lt (pos n) = omega arith
to_u64_lt (negsuc n) = omega arith

-- The addresses of mappings, and of those that operations own.
abbrev pub bases : List Mapping → List ℕ
bases [] = []
bases (m ∷ ms) = m.base ∷ bases ms

abbrev pub owned : List GcmOp → List ℕ
owned [] = []
owned (op ∷ ops) = op.mem.base ∷ owned ops

owned-append : (xs ys : List GcmOp) → owned (xs ++ ys) ≡ owned xs ++ owned ys
owned-append [] ys = refl
owned-append (x ∷ xs) ys = ap (◌∷◌ x.mem.base) (owned-append xs ys)

-- The live mappings are those of the operations of `g`, and the given others.
abbrev pub Owns : {S : Type 0} → List ℕ → ℕ → World S → Type 0
Owns others g w = (b : ℕ) → count b (bases w.maps) ≡ count b others + count b (owned (w.gcms g).ops)

module _ {S : Type 0} (env : Env S) (g : ℕ) (w : World S) where
  abbrev params : GcmParams
  params = w.gcms g

  abbrev total_size : ℕ
  total_size = 48 + params.iv.len + params.aad.len

  abbrev mapping : Mapping
  mapping = record { base = w.next; size = total_size }

  abbrev iv : Slice
  iv = record { ptr = w.next + 48; len = params.iv.len }

  abbrev aad : Slice
  aad = record { ptr = w.next + 48 + params.iv.len; len = params.aad.len }

  abbrev words : List ℕ
  words = addr iv ∷ iv.len ∷ (iv.len * 8) ∷ addr aad ∷ aad.len ∷ to_u64 params.tag_size ∷ []

  zeroed : Memory
  zeroed = store w.mem w.next (replicate total_size 0)

  with_iv : Memory
  with_iv = store zeroed iv.ptr (load zeroed params.iv.ptr params.iv.len)

  with_aad : Memory
  with_aad = store with_iv aad.ptr (load with_iv params.aad.ptr params.aad.len)

  -- The world after a mapping was granted.
  marshalled : World S
  marshalled = record w {
    mem = store_words with_aad w.next words;
    next = w.next + suc total_size;
    maps = mapping ∷ w.maps;
    gcms =
        set_gcm w.gcms g
          (record params { ops = params.ops ++ record { mem = mapping; iv = iv } ∷ [] });
  }

  gcm_marshal_run :
      env.grants total_size w.token ≡ true
      → gcm_marshal env g w ≡ ok (record { ptr = w.next; len = 48 }) marshalled
  unfolding gcm_marshal mmap get_gcm put_gcm put_word put_bytes get_bytes allocate store_words
      marshalled with_aad with_iv zeroed
  gcm_marshal_run granted =
      let second : w.next + 8 + 8 ≡ w.next + 16 = omega arith in
      let third : w.next + 16 + 8 ≡ w.next + 24 = omega arith in
      let fourth : w.next + 24 + 8 ≡ w.next + 32 = omega arith in
      let fifth : w.next + 32 + 8 ≡ w.next + 40 = omega arith in
      rw (granted, second, third, fourth, fifth) refl

  below-zeroed : (s : Slice) → s.ptr + s.len ≤ w.next → content zeroed s ≡ content w.mem s
  unfolding zeroed
  below-zeroed s h =
      load-congr _ w.mem s.ptr s.len
        (λ x l u. store-outside w.mem w.next (replicate total_size 0) x (inl (omega arith)))

  below-with_iv : (s : Slice) → s.ptr + s.len ≤ w.next → content with_iv s ≡ content w.mem s
  unfolding with_iv
  below-with_iv s h =
      load-store_apart zeroed iv.ptr (load zeroed params.iv.ptr params.iv.len) s.ptr s.len
        (inl (omega arith))
      ∙ below-zeroed s h

  marshalled-outside : (x : ℕ) → (x < w.next) → marshalled.mem x ≡ w.mem x
  unfolding marshalled with_aad with_iv zeroed
  marshalled-outside x h =
      store_words-outside _ w.next words x (inl h)
      ∙ store-outside _ aad.ptr _ x (inl (omega arith))
      ∙ store-outside _ iv.ptr _ x (inl (omega arith))
      ∙ store-outside w.mem w.next (replicate total_size 0) x (inl h)

  words-apart : (q n : ℕ) → w.next + 48 ≤ q → load marshalled.mem q n ≡ load with_aad q n
  unfolding marshalled
  words-apart q n h =
      load-congr _ with_aad q n
        (λ x l u. store_words-outside with_aad w.next words x (inr (omega arith)))

  -- What GCMParams.marshal leaves behind: a new mapping with CK_GCM_PARAMS, behind it the copies of
  -- the IV and of the AAD, to which the structure points (with NULL for an empty one), and an
  -- operation that owns the mapping.
  pub record Marshals (others : List ℕ) (b : Slice) (w' : World S) : Type 0 where
    pub returns : gcm_marshal env g w ≡ ok b w'
    pub maps :
        w'.maps ≡ record { base = b.ptr; size = 48 + params.iv.len + params.aad.len } ∷ w.maps
    pub apart : w.next ≤ b.ptr
    pub size : b.len ≡ 48
    pub reads :
        load_words w'.mem b.ptr 6
        ≡ (if params.iv.len == 0 then 0 else b.ptr + 48)
          ∷ params.iv.len
          ∷ (params.iv.len * 8)
          ∷ (if params.aad.len == 0 then 0 else b.ptr + 48 + params.iv.len)
          ∷ params.aad.len
          ∷ to_u64 params.tag_size
          ∷ []
    pub iv_copied : load w'.mem (b.ptr + 48) params.iv.len ≡ content w.mem params.iv
    pub aad_copied :
        load w'.mem (b.ptr + 48 + params.iv.len) params.aad.len ≡ content w.mem params.aad
    pub operations :
        (w'.gcms g).ops
        ≡ params.ops
          ++ record {
            mem = record { base = b.ptr; size = 48 + params.iv.len + params.aad.len };
            iv = record { ptr = b.ptr + 48; len = params.iv.len };
          }
            ∷ []
    pub same : (x : ℕ) → x < w.next → w'.mem x ≡ w.mem x
    pub owns : Owns others g w'

  module _ (iv_below : params.iv.ptr + params.iv.len ≤ w.next)
      (aad_below : params.aad.ptr + params.aad.len ≤ w.next) where
    load-iv : content marshalled.mem iv ≡ content w.mem params.iv
    unfolding with_aad with_iv
    load-iv =
        let bytes : List ℕ = load zeroed params.iv.ptr params.iv.len in
        let size : length bytes ≡ params.iv.len = length-load zeroed params.iv.ptr params.iv.len in
        words-apart iv.ptr iv.len (omega arith)
        ∙ load-store_apart with_iv aad.ptr _ iv.ptr iv.len (inl (omega arith))
        ∙ ap (load with_iv iv.ptr) (sym size)
        ∙ load-store_self zeroed iv.ptr bytes
        ∙ below-zeroed params.iv iv_below

    load-aad : content marshalled.mem aad ≡ content w.mem params.aad
    unfolding with_aad
    load-aad =
        let bytes : List ℕ = load with_iv params.aad.ptr params.aad.len in
        let size : length bytes ≡ params.aad.len =
          length-load with_iv params.aad.ptr params.aad.len in
        words-apart aad.ptr aad.len (omega arith)
        ∙ ap (load with_aad aad.ptr) (sym size)
        ∙ load-store_self with_iv aad.ptr bytes
        ∙ below-with_iv params.aad aad_below

    self : (g == g) ≡ true
    self = ground arith

    -- GCMParams.marshal, if the kernel grants the memory, addresses and lengths fit in words, and
    -- IV and AAD lie in memory in use: there is a new mapping with CK_GCM_PARAMS and, behind it,
    -- copies of IV and AAD; the structure has the addresses of these copies (NULL if empty),
    -- their lengths and the tag size; an operation with the mapping and the copy of the IV has
    -- been appended; memory that was in use is unchanged; and where the live mappings are the
    -- object's and some others, they still are.
    pub gcm_marshal-Marshals :
        (others : List ℕ)
        → Owns others g w
        → env.grants (48 + (w.gcms g).iv.len + (w.gcms g).aad.len) w.token ≡ true
        → w.next + 48 + (w.gcms g).iv.len + (w.gcms g).aad.len < 2 ^ 64
        → (w.gcms g).iv.len * 8 < 2 ^ 64
        → (b : Slice) × (w' : World S) × Marshals others b w'
    unfolding marshalled
    gcm_marshal-Marshals others h granted high bits = (
      record { ptr = w.next; len = 48 },
      marshalled,
      record {
        returns = gcm_marshal_run granted;
        maps = refl;
        apart = omega arith;
        size = refl;
        reads = load_words-store_words with_aad w.next words (
          ground arith,
          (
            omega arith,
            (omega arith, (ground arith, (omega arith, (to_u64_lt params.tag_size, tt)))),
          ),
        );
        iv_copied = load-iv;
        aad_copied = load-aad;
        operations = rw self refl;
        same = marshalled-outside;
        owns = λ b. rw self (
            ground (
              arith,
              h b,
              ap (count b) (owned-append params.ops (record { mem = mapping; iv = iv } ∷ [])),
              count-append b (owned params.ops) (w.next ∷ []),
            ));
      },
    )
