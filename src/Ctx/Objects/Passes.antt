-- ===== src/Ctx/Objects/Passes.antt =====
-- The two passes of GetAttributeValue up to their calls.
use gopkcs.Prelude.{
  ℕ, suc, ◌+◌, ◌*◌, ◌^◌, ◌≤◌, ◌<◌, ◌≡◌, refl, ◌∙◌, inl, List, [], ◌∷◌, arith, length, replicate,
}
use gopkcs.Machine.Bytes.{Memory, store, store-outside}
use gopkcs.Machine.Effects.{World, ok, max_alloc, pin, set_pins}
use gopkcs.Machine.Laws.{make_bytes_run}
use gopkcs.Types.{Attribute}
use gopkcs.Arena.{marshal_attributes_for_query, marshal_attributes_with_buffers}
use gopkcs.Arena.Marshal.{IsZero-replicate}
use gopkcs.Ctx.Objects.Answers.{Ready, AreWords}
use gopkcs.Ctx.Objects.Prepared.{
  AreTypes, types_memory, types_memory-outside, types_memory-Ready, put_types_run, no_buffers,
}
use gopkcs.Ctx.Objects.Buffered.{sizes_of, total, AreSmall, Buffered, put_buffers-Buffered}
use gopkcs.Ctx.Output.Convention.{Same}

module _ (value : ℕ → List ℕ) where
  pub AreSmall-words : (attrs : List Attribute) → AreSmall value attrs → AreWords value attrs
  AreSmall-words [] h = tt
  AreSmall-words (a ∷ rest) (h, hs) = (omega arith, AreSmall-words rest hs)

-- The two passes, each with its call.
module _ {S : Type 0} (a : Attribute) (rest : List Attribute) (value : ℕ → List ℕ)
    (types : AreTypes (a ∷ rest)) (small : AreSmall value (a ∷ rest))
    (array : length (a ∷ rest) * 24 ≤ max_alloc) (w : World S) where
  abbrev pub attrs : List Attribute
  attrs = a ∷ rest

  abbrev pub size : ℕ
  size = length (a ∷ rest) * 24

  abbrev pub zeroed : Memory
  zeroed = store w.mem w.next (replicate size 0)

  zeroed-Same : Same w.next zeroed w.mem
  zeroed-Same x h = store-outside w.mem w.next (replicate size 0) x (inl h)

  module _ (ar : ℕ) where
    abbrev pub asking : World S
    asking = record w {
      mem = types_memory zeroed w.next (a ∷ rest);
      next = w.next + suc size;
      pins = set_pins w.pins ar (w.next ∷ w.pins ar);
    }

    pub query_run :
        marshal_attributes_for_query ar (a ∷ rest) w
        ≡ ok (w.next, length (a ∷ rest), record { ptr = w.next; len = size }) asking
    unfolding marshal_attributes_for_query pin
    query_run = rw (make_bytes_run size w array, put_types_run) refl

    pub asking-Ready :
        Ready value asking.mem w.next (w.next + size) (a ∷ rest) (no_buffers (a ∷ rest))
    asking-Ready =
        types_memory-Ready value zeroed w.next (w.next + size) (a ∷ rest) types
          (IsZero-replicate w.mem w.next size)

    pub asking-Same : Same w.next asking.mem w.mem
    asking-Same x h = types_memory-outside zeroed w.next (a ∷ rest) x (inl h) ∙ zeroed-Same x h

    -- The world in which the buffers are made.
    abbrev pub empty : World S
    empty = record w {
      mem = zeroed;
      next = w.next + suc size;
      pins = set_pins w.pins ar (w.next ∷ w.pins ar);
    }

    module _ (b : Buffered value ar w.next (a ∷ rest) empty) where
      pub buffers_run :
          marshal_attributes_with_buffers ar (a ∷ rest) (sizes_of value (a ∷ rest)) w
          ≡ ok (w.next, length (a ∷ rest), record { ptr = w.next; len = size }, b.slices) b.world
      unfolding marshal_attributes_with_buffers pin
      buffers_run = rw (make_bytes_run size w array, b.runs) refl

      pub buffers-Same : Same w.next b.world.mem w.mem
      buffers-Same x h = b.outside x (inl h) ∙ zeroed-Same x h

    pub buffered :
        0 < w.next
        → w.next + suc size + total value (a ∷ rest) < 2 ^ 64
        → Buffered value ar w.next (a ∷ rest) empty
    buffered some_address fits =
        put_buffers-Buffered value ar w.next (a ∷ rest) empty types small (omega arith) fits
          (omega arith) (IsZero-replicate w.mem w.next size)
