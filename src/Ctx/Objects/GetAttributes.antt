-- ===== src/Ctx/Objects/GetAttributes.antt =====
-- GetAttributeValue against a module that has the attributes.
use gopkcs.Prelude.{
  ℕ, suc, ◌+◌, ◌*◌, ◌^◌, ◌≤◌, ◌<◌, ◌≡◌, refl, ◌∙◌, inl, some, List, [], ◌∷◌, arith, length,
}
use gopkcs.Machine.Bytes.{Memory}
use gopkcs.Machine.Effects.{unpinned, syscall_n, with_pinner, Env, World, Outcome, ok, max_alloc}
use gopkcs.Types.{Attribute}
use gopkcs.Arena.{
  unmarshal_attributes, query_sizes, marshal_attributes_for_query, marshal_attributes_with_buffers,
}
use gopkcs.Arena.Marshal.{contents}
use gopkcs.Ctx.Objects.Answers.{
  answer-Answered, Answered, answer-outside, Ready-room, Ready, AreWords,
}
use gopkcs.Ctx.Objects.Prepared.{AreTypes, no_buffers}
use gopkcs.Ctx.Objects.Buffered.{sizes_of, total, AreSmall, Buffered}
use gopkcs.Ctx.Output.Convention.{Same}
use gopkcs.FuncList.{FunctionList}
use gopkcs.Ctx.Objects.Convention.{answer, Answers}
use gopkcs.Ctx.Objects.{get_attribute_value}
use gopkcs.Ctx.Base.{invoke, functions}
use gopkcs.Ctx.Objects.Values.{unmarshal_attributes_run, values_of, query_sizes_run}
use gopkcs.Arena.Layout.{read_entries}
use gopkcs.Ctx.Objects.Passes.{
  asking, query_run, asking-Ready, asking-Same, empty, buffers_run, buffers-Same, buffered,
  AreSmall-words,
}

-- What a caller sees of a run that succeeds with these attributes.
pub record Gets {S : Type 0} (w : World S) (values : List (ℕ × List ℕ))
    (r : Outcome S (List Attribute)) : Type 0 where
  pub attributes : List Attribute
  pub world : World S
  pub returns : r ≡ ok attributes world
  pub got : contents world.mem attributes ≡ values
  pub token : world.token ≡ w.token
  pub same : Same w.next world.mem w.mem

module _ {S : Type 0} (env : Env S) (fl : FunctionList) (sh obj : ℕ) (value : S → ℕ → List ℕ)
    (answers : Answers env fl.c_get_attribute_value (sh ∷ obj ∷ []) value) (a : Attribute)
    (rest : List Attribute) (w : World S) (types : AreTypes (a ∷ rest))
    (small : AreSmall (value w.token) (a ∷ rest)) (array : length (a ∷ rest) * 24 ≤ max_alloc)
    (some_address : 0 < w.next)
    (fits : w.next + 2 * suc (length (a ∷ rest) * 24) + total (value w.token) (a ∷ rest)
      < 2 ^ 64) where
  abbrev v : ℕ → List ℕ
  v = value w.token

  abbrev n : ℕ
  n = length (a ∷ rest)

  abbrev asked : World S
  asked = asking a rest v types small array (record w { pinners = suc w.pinners }) w.pinners

  -- After the first call, and in the second arena.
  abbrev sized : World S
  sized = record asked { mem = answer v asked.mem w.next n }

  abbrev again : World S
  again = record sized { pinners = suc (suc w.pinners) }

  words : AreWords v (a ∷ rest)
  words = AreSmall-words v (a ∷ rest) small

  ready : Ready v asked.mem w.next (w.next + n * 24) (a ∷ rest) (no_buffers (a ∷ rest))
  ready = asking-Ready a rest v types small array (record w { pinners = suc w.pinners }) w.pinners

  first_reply :
      env.call fl.c_get_attribute_value (sh ∷ obj ∷ w.next ∷ n ∷ []) w.token asked.mem
      ≡ record { rv = 0; mem = sized.mem; token = w.token }
  first_reply =
      answers.reply w.token asked.mem w.next n
        (Ready-room v asked.mem w.next (w.next + n * 24) (a ∷ rest) (no_buffers (a ∷ rest)) ready)

  sized_run : query_sizes w.next n sized ≡ ok (sizes_of v (a ∷ rest)) sized
  sized_run = query_sizes_run v w.next (a ∷ rest) (no_buffers (a ∷ rest)) sized (
      answer-Answered v asked.mem w.next (w.next + n * 24) (a ∷ rest) (no_buffers (a ∷ rest)) ready
        (omega arith) words)

  sized-Same : Same w.next sized.mem w.mem
  sized-Same x h =
      answer-outside v asked.mem w.next (w.next + n * 24) (a ∷ rest) (no_buffers (a ∷ rest)) ready
        (omega arith) words x (inl h)
      ∙ asking-Same a rest v types small array (record w { pinners = suc w.pinners }) w.pinners x h

  module _
      (b : Buffered v
        (suc w.pinners)
        again.next
        (a ∷ rest)
        (empty a rest v types small array again (suc w.pinners))) where
    -- After the second call.
    abbrev filled : World S
    filled = record b.world { mem = answer v b.world.mem again.next n; token = w.token }

    second_reply :
        env.call fl.c_get_attribute_value (sh ∷ obj ∷ again.next ∷ n ∷ []) b.world.token b.world.mem
        ≡ record { rv = 0; mem = filled.mem; token = w.token }
    second_reply = rw b.token (
        answers.reply w.token b.world.mem again.next n
          (Ready-room v b.world.mem again.next _ (a ∷ rest) b.slices b.ready))

    filled-Answered : Answered v filled.mem again.next (a ∷ rest) b.slices
    filled-Answered =
        answer-Answered v b.world.mem again.next _ (a ∷ rest) b.slices b.ready (omega arith) words

    filled-Same : Same w.next filled.mem w.mem
    filled-Same x h =
        answer-outside v b.world.mem again.next _ (a ∷ rest) b.slices b.ready (omega arith) words x
          (inl (omega arith))
        ∙ buffers-Same a rest v types small array again (suc w.pinners) b x (omega arith)
        ∙ sized-Same x h

    gets :
        Gets w
          (values_of v (a ∷ rest))
          (get_attribute_value env (record { fl = some fl }) sh obj (a ∷ rest) w)
    unfolding get_attribute_value with_pinner invoke functions syscall_n
    gets =
        let (got, run, same) =
          unmarshal_attributes_run v again.next (a ∷ rest) b.slices filled filled-Answered
            b.filled in
        record {
          attributes = got;
          world = unpinned w.pinners (unpinned (suc w.pinners) filled);
          returns =
              rw
                (
                  query_run a rest v types small array (record w { pinners = suc w.pinners })
                      w.pinners,
                  first_reply,
                  sized_run,
                  buffers_run a rest v types small array again (suc w.pinners) b,
                  second_reply,
                  run,
                )
                refl;
          got = same;
          token = refl;
          same = filled-Same;
        }

module _ {S : Type 0} (env : Env S) (fl : FunctionList) (sh obj : ℕ) (value : S → ℕ → List ℕ)
    (answers : Answers env fl.c_get_attribute_value (sh ∷ obj ∷ []) value) where
  empty_reply :
      (t : S) (m : Memory)
      → env.call fl.c_get_attribute_value (sh ∷ obj ∷ 0 ∷ 0 ∷ []) t m
        ≡ record { rv = 0; mem = m; token = t }
  unfolding answer read_entries
  empty_reply t m = answers.reply t m 0 0 tt

  Gets-none :
      (w : World S) → Gets w [] (get_attribute_value env (record { fl = some fl }) sh obj [] w)
  unfolding get_attribute_value with_pinner invoke functions syscall_n marshal_attributes_for_query
      marshal_attributes_with_buffers query_sizes unmarshal_attributes contents
  Gets-none w = record {
    attributes = [];
    world =
        unpinned w.pinners (unpinned (suc w.pinners) (record w { pinners = suc (suc w.pinners) }));
    returns = rw (empty_reply, empty_reply) refl;
    got = refl;
    token = refl;
    same = λ x h. refl;
  }

  -- GetAttributeValue, with the template's types and the addresses within words, values and
  -- arrays within the allocation limit, on a module whose C_GetAttributeValue reports the length
  -- of a value where pValue is NULL and writes the value where pValue has room: the caller gets
  -- the types of the template in order, each with exactly the module's value (empty ones and an
  -- empty template included); the module's state and memory that was in use are unchanged.
  pub get_attribute_value-Gets :
      (attrs : List Attribute) (w : World S)
      → AreTypes attrs
      → AreSmall (value w.token) attrs
      → length attrs * 24 ≤ max_alloc
      → 0 < w.next
      → w.next + 2 * suc (length attrs * 24) + total (value w.token) attrs < 2 ^ 64
      → Gets w
          (values_of (value w.token) attrs)
          (get_attribute_value env (record { fl = some fl }) sh obj attrs w)
  get_attribute_value-Gets [] w types small array some_address fits = Gets-none w
  get_attribute_value-Gets (a ∷ rest) w types small array some_address fits =
      gets env fl sh obj value answers a rest w types small array some_address fits (
        buffered a rest (value w.token) types small array
          (again env fl sh obj value answers a rest w types small array some_address fits)
          (suc w.pinners) (omega arith) (omega arith))
