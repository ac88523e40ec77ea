-- ===== src/Params/Release.antt =====
-- IV and Free of GCMParams.
use gopkcs.Prelude.{
  ℕ, suc, ◌+◌, ◌-◌, ◌≤◌, ◌<◌, ◌≡◌, refl, sym, ap, ◌∙◌, ◌⊎◌, inl, inr, true, List, [], ◌∷◌, ◌++◌,
  arith, ◌==◌, if◌then◌else◌, Bool-cases, length, replicate, count,
}
use gopkcs.Machine.Bytes.{store, load, store-outside, load-store_self}
use gopkcs.Machine.Effects.{
  GcmParams, Slice, nil, Mapping, GcmOp, World, ok, put_bytes, get_bytes, allocate, bytes_of_string,
}
use gopkcs.Params.{
  set_gcm, clone, get_gcm, put_gcm, gcm_iv, gcm_free, free_ops, munmap, unmap, newest_iv,
}
use gopkcs.Params.Gcm.{content, bases, owned, Owns}

one_if : ℕ → ℕ → ℕ
one_if b a = if b == a then 1 else 0

count-unmap :
    (b a : ℕ) (ms : List Mapping) → count b (bases (unmap a ms)) ≡ count b (bases ms) - one_if b a
unfolding one_if
count-unmap b a [] = ground arith
count-unmap b a (m ∷ ms) = ground (arith, count-unmap b a ms)

unmap_all : List GcmOp → List Mapping → List Mapping
unmap_all [] ms = ms
unmap_all (op ∷ ops) ms = unmap_all ops (unmap op.mem.base ms)

count-unmap_all :
    (b : ℕ) (ops : List GcmOp) (ms : List Mapping)
    → count b (bases (unmap_all ops ms)) ≡ count b (bases ms) - count b (owned ops)
unfolding unmap_all one_if
count-unmap_all b [] ms = omega arith
count-unmap_all b (op ∷ ops) ms =
    let rest : count b (bases (unmap_all ops (unmap op.mem.base ms)))
        ≡ count b (bases (unmap op.mem.base ms)) - count b (owned ops) =
      count-unmap_all b ops (unmap op.mem.base ms) in
    let one : count b (bases (unmap op.mem.base ms)) ≡ count b (bases ms) - one_if b op.mem.base =
      count-unmap b op.mem.base ms in
    ground (arith, rest, one)

-- The IV of the last operation, or the object's own where there is none.
abbrev pub IsNewest : Slice → GcmParams → Type 0
IsNewest iv p =
    ((p.ops ≡ []) × (iv ≡ p.iv))
    ⊎ ((before : List GcmOp) × (op : GcmOp) × (p.ops ≡ before ++ op ∷ []) × (iv ≡ op.iv))

newest_iv-snoc : (d : Slice) (ops : List GcmOp) (op : GcmOp) → newest_iv d (ops ++ op ∷ []) ≡ op.iv
newest_iv-snoc d [] op = refl
newest_iv-snoc d (a ∷ []) op = refl
newest_iv-snoc d (a ∷ b ∷ ops) op = newest_iv-snoc d (b ∷ ops) op

newest_iv-IsNewest : (iv : Slice) (p : GcmParams) → IsNewest iv p → newest_iv p.iv p.ops ≡ iv
newest_iv-IsNewest iv p (inl (e, f)) = ap (newest_iv p.iv) e ∙ sym f
newest_iv-IsNewest iv p (inr (before, op, e, f)) =
    ap (newest_iv p.iv) e ∙ newest_iv-snoc p.iv before op ∙ sym f

module _ {S : Type 0} where
  free_ops_run :
      (ops : List GcmOp) (w : World S)
      → free_ops ops w ≡ ok tt (record w { maps = unmap_all ops w.maps })
  unfolding free_ops munmap unmap_all
  free_ops_run [] w = refl
  free_ops_run (op ∷ ops) w = free_ops_run ops (record w { maps = unmap op.mem.base w.maps })

  freed : ℕ → World S → World S
  freed g w = record w {
    maps = unmap_all (w.gcms g).ops w.maps;
    gcms = set_gcm w.gcms g (record (w.gcms g) { ops = [] });
  }

  gcm_free_run : (g : ℕ) (w : World S) → gcm_free g w ≡ ok tt (freed g w)
  unfolding gcm_free get_gcm put_gcm freed
  gcm_free_run g w = rw (free_ops_run (w.gcms g).ops w) refl

  -- GCMParams.Free, where the live mappings are those of the object's operations and some others:
  -- the others are what remains, the object owns no mapping, and its IV and AAD are as they were.
  pub gcm_free-Owns :
      (g : ℕ) (w : World S) (others : List ℕ)
      → Owns others g w
      → (w' : World S) × (gcm_free g w ≡ ok tt w')
        × ((b : ℕ) → count b (bases w'.maps) ≡ count b others)
        × ((w'.gcms g).ops ≡ [])
        × ((w'.gcms g).iv ≡ (w.gcms g).iv)
        × ((w'.gcms g).aad ≡ (w.gcms g).aad)
  unfolding freed
  gcm_free-Owns g w others h =
      let self : (g == g) ≡ true = ground arith in
      (
        freed g w,
        gcm_free_run g w,
        λ b. omega (arith, h b, count-unmap_all b (w.gcms g).ops w.maps),
        rw self refl,
        rw self refl,
        rw self refl,
      )

  -- A copy of a slice's bytes, in memory of its own that was not in use.
  pub record Copies (s : Slice) (w : World S) (c : Slice) (w' : World S) : Type 0 where
    pub copied : content w'.mem c ≡ content w.mem s
    pub apart : (c.len ≡ 0) ⊎ (w.next ≤ c.ptr)
    pub within : c.ptr + c.len ≤ w'.next
    pub same : (x : ℕ) → x < w.next → w'.mem x ≡ w.mem x
    pub gcms : w'.gcms ≡ w.gcms

  clone-Copies :
      (s : Slice) (w : World S)
      → (c : Slice) × (w' : World S) × (clone s w ≡ ok c w') × Copies s w c w'
  unfolding clone get_bytes bytes_of_string put_bytes allocate
  clone-Copies s w = elim (Bool-cases (s.len == 0)) [
    | inl hit ↦
        let none_left : s.len ≡ 0 = ground arith in
        (
          nil,
          w,
          rw hit refl,
          record {
            copied = unfold load in (rw none_left refl);
            apart = inl refl;
            same = λ x h. refl;
            gcms = refl;
            within = omega arith;
          },
        )
    | inr miss ↦
        let bytes : List ℕ = load w.mem s.ptr s.len in
        (
          record { ptr = w.next; len = length bytes },
          record w {
            mem = store (store w.mem w.next (replicate (length bytes) 0)) w.next bytes;
            next = w.next + suc (length bytes);
          },
          rw miss refl,
          record {
            copied = load-store_self (store w.mem w.next (replicate (length bytes) 0)) w.next bytes;
            apart = inr (omega arith);
            same = λ x h.
                store-outside _ w.next bytes x (inl h)
                ∙ store-outside w.mem w.next (replicate (length bytes) 0) x (inl h);
            gcms = refl;
            within = omega arith;
          },
        )
  ]

  -- GCMParams.IV returns the bytes that the IV of the last operation, or the object's own IV if
  -- there is no operation, has then in memory, in fresh memory of their own, and leaves memory
  -- that was in use and the objects unchanged.
  pub gcm_iv-newest :
      (g : ℕ) (w : World S) (iv : Slice)
      → IsNewest iv (w.gcms g)
      → (c : Slice) × (w' : World S) × (gcm_iv g w ≡ ok c w') × Copies iv w c w'
  unfolding gcm_iv get_gcm
  gcm_iv-newest g w iv newest =
      rw (← newest_iv-IsNewest iv (w.gcms g) newest)
        (clone-Copies (newest_iv (w.gcms g).iv (w.gcms g).ops) w)
