-- ===== src/Ctx/Objects/Buffer.antt =====
-- One buffer of the second pass of GetAttributeValue.
use gopkcs.Prelude.{
  ℕ, suc, ◌+◌, ◌^◌, ◌≤◌, ◌<◌, ◌≡◌, refl, ◌∙◌, ◌⊎◌, inl, inr, [], ◌∷◌, arith, ltb, Bool-cases,
  replicate,
}
use gopkcs.Machine.Bytes.{Memory, store, store-outside}
use gopkcs.Machine.Words.{load_word, store_word, load_word-store_word_self, store_word-outside}
use gopkcs.Machine.Effects.{Slice, nil, World, ok, max_alloc, put_word, pin, set_pins}
use gopkcs.Machine.Laws.{make_bytes_run}
use gopkcs.Arena.{put_buffer}
use gopkcs.Ctx.Objects.Answers.{top}

-- What is known of it, and of the world in which it is there.
pub record Buffer {S : Type 0} (o off sz : ℕ) (w : World S) : Type 0 where
  pub slice : Slice
  pub world : World S
  pub runs : put_buffer o off sz w ≡ ok slice world
  pub len : slice.len ≡ sz
  pub place : (slice.ptr ≡ 0) ⊎ (slice.ptr ≡ w.next)
  pub used : (sz ≡ 0) ⊎ (0 < slice.ptr)
  pub next : world.next ≡ top (λ _. []) w.next slice
  pub word : load_word world.mem (off + 8) ≡ slice.ptr
  pub outside : (x : ℕ) → (x < off + 8) ⊎ ((off + 16 ≤ x) × (x < w.next)) → world.mem x ≡ w.mem x
  pub token : world.token ≡ w.token

pub buffer :
    {S : Type 0} (o off sz : ℕ) (w : World S)
    → sz ≤ max_alloc
    → 0 < w.next
    → w.next < 2 ^ 64
    → off + 24 ≤ w.next
    → load_word w.mem (off + 8) ≡ 0
    → Buffer o off sz w
unfolding put_buffer put_word pin
buffer o off sz w small some_address fits room zero_here = elim (Bool-cases (ltb 0 sz)) [
  | inl hit ↦
      let m : Memory = store w.mem w.next (replicate sz 0) in
      record {
        slice = record { ptr = w.next; len = sz };
        world = record w {
          mem = store_word m (off + 8) w.next;
          next = w.next + suc sz;
          pins = set_pins w.pins o (w.next ∷ w.pins o);
        };
        runs = rw (hit, make_bytes_run sz w small) refl;
        len = refl;
        place = inr refl;
        used = inr some_address;
        next = ground arith;
        word = load_word-store_word_self m (off + 8) w.next fits;
        outside = λ x h.
            store_word-outside m (off + 8) w.next x (omega arith)
            ∙ store-outside w.mem w.next (replicate sz 0) x (omega arith);
        token = refl;
      }
  | inr miss ↦ record {
    slice = nil;
    world = w;
    runs = rw miss refl;
    len = ground arith;
    place = inl refl;
    used = inl (ground arith);
    next = refl;
    word = zero_here;
    outside = λ x h. refl;
    token = refl;
  }
]
