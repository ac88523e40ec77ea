-- ===== src/Ctx/Slots/Lists.antt =====
-- GetSlotList and GetMechanismList against a module that follows the convention of PKCS#11 on lists:
-- without an array it reports how many items there are, into an array it writes them.
use gopkcs.Prelude.{
  ℕ, suc, ◌+◌, ◌*◌, ◌≤◌, ◌<◌, ◌≡◌, refl, sym, ap, ◌∙◌, ◌≢◌, inl, inr, Bool, true, false, some, List,
  [], ◌∷◌, map, arith, ◌==◌, if◌then◌else◌, Bool-cases, length, replicate, count,
}
use gopkcs.Machine.Bytes.{Memory, store, store-outside}
use gopkcs.Machine.Words.{
  load_word, store_word, load_words, load_word-store_word_self, load_word-store_apart,
  store_word-outside,
}
use gopkcs.Machine.Effects.{
  set_pins, World, Env, Outcome, ok, nil, max_alloc, new_word, allocate, new_pinner, pin, unpin,
  syscall_n, get_word, get_words,
}
use gopkcs.Machine.Laws.{make_words_run}
use gopkcs.Types.{Mechanism, absent}
use gopkcs.FuncList.{FunctionList}
use gopkcs.Ctx.Base.{invoke, functions, first_words}
use gopkcs.Ctx.Slots.{get_slot_list, get_mechanism_list}
use gopkcs.Machine.Structures.{store_words, AreWords, store_words-outside, load_words-store_words}
use gopkcs.Machine.Words.{load_words-congr}
use gopkcs.Ctx.Output.Convention.{eq-nil, leb_refl, Same}

-- A mechanism as the list has it: without a parameter.
abbrev pub plain : ℕ → Mechanism
plain id = record { mechanism = id; parameter = nil; generator = absent }

-- The function at fn, behind its first argument.
pub record Enumerates {S : Type 0} (env : Env S) (fn first : ℕ) (items : S → List ℕ) : Type 0 where
  pub query :
      (t : S) (m : Memory) (p : ℕ)
      → env.call fn (first ∷ 0 ∷ p ∷ []) t m
        ≡ record { rv = 0; mem = store_word m p (length (items t)); token = t }
  pub fill :
      (t : S) (m : Memory) (q p : ℕ)
      → q ≢ 0
      → length (items t) ≤ load_word m p
      → env.call fn (first ∷ q ∷ p ∷ []) t m ≡ record {
        rv = 0;
        mem = store_word (store_words m q (items t)) p (length (items t));
        token = t;
      }

-- A run that gives this result and changes neither the module nor memory in use.
pub record Gives {S A : Type 0} (w : World S) (a : A) (r : Outcome S A) : Type 0 where
  pub world : World S
  pub returns : r ≡ ok a world
  pub token : world.token ≡ w.token
  pub same : Same w.next world.mem w.mem

module _ {S : Type 0} (env : Env S) (fn first : ℕ) (items : S → List ℕ)
    (follows : Enumerates env fn first items) (w : World S) (some_address : 0 < w.next)
    (words : AreWords (items w.token)) (small : length (items w.token) * 8 ≤ max_alloc) where
  abbrev found : List ℕ
  found = items w.token

  abbrev n : ℕ
  n = length found

  -- The memory after each step.
  zeroed : Memory
  zeroed = store w.mem w.next (replicate 8 0)

  counted : Memory
  counted = store_word zeroed w.next n

  buffered : Memory
  buffered = store counted (w.next + 9) (replicate (n * 8) 0)

  listed : Memory
  listed = store_word (store_words buffered (w.next + 9) found) w.next n

  counted-Same : Same w.next counted w.mem
  unfolding counted zeroed
  counted-Same x h =
      store_word-outside zeroed w.next n x (inl h)
      ∙ store-outside w.mem w.next (replicate 8 0) x (inl h)

  listed-Same : Same w.next listed w.mem
  unfolding listed buffered
  listed-Same x h =
      store_word-outside (store_words buffered (w.next + 9) found) w.next n x (inl h)
      ∙ store_words-outside buffered (w.next + 9) found x (omega arith)
      ∙ store-outside counted (w.next + 9) (replicate (n * 8) 0) x (omega arith)
      ∙ counted-Same x h

  counted-count : load_word counted w.next ≡ n
  unfolding counted
  counted-count = load_word-store_word_self zeroed w.next n (omega arith)

  buffered-count : load_word buffered w.next ≡ n
  unfolding buffered
  buffered-count =
      load_word-store_apart counted (w.next + 9) (replicate (n * 8) 0) w.next (omega arith)
      ∙ counted-count

  listed-count : load_word listed w.next ≡ n
  unfolding listed
  listed-count =
      load_word-store_word_self (store_words buffered (w.next + 9) found) w.next n (omega arith)

  listed-words : load_words listed (w.next + 9) n ≡ found
  unfolding listed
  listed-words =
      load_words-congr listed (store_words buffered (w.next + 9) found) (w.next + 9) n (λ x l u.
        store_word-outside (store_words buffered (w.next + 9) found) w.next n x (omega arith))
      ∙ load_words-store_words buffered (w.next + 9) found words

  query_reply :
      env.call fn (first ∷ 0 ∷ w.next ∷ []) w.token zeroed
      ≡ record { rv = 0; mem = counted; token = w.token }
  unfolding counted
  query_reply = follows.query w.token zeroed w.next

  fill_reply :
      env.call fn (first ∷ (w.next + 9) ∷ w.next ∷ []) w.token buffered
      ≡ record { rv = 0; mem = listed; token = w.token }
  unfolding listed
  fill_reply =
      follows.fill w.token buffered (w.next + 9) w.next (λ e. omega arith)
        (omega (arith, buffered-count))

  replies :
      (env.call fn (first ∷ 0 ∷ w.next ∷ []) w.token zeroed
        ≡ record { rv = 0; mem = counted; token = w.token })
      × (load_word counted w.next ≡ n)
      × (env.call fn (first ∷ (w.next + 9) ∷ w.next ∷ []) w.token buffered
          ≡ record { rv = 0; mem = listed; token = w.token })
      × (load_word listed w.next ≡ n)
      × (load_words listed (w.next + 9) n ≡ found)
  replies = (query_reply, counted-count, fill_reply, listed-count, listed-words)

  -- After the first call, and after the second.
  abbrev queried : World S
  queried = record w {
    mem = counted;
    next = w.next + 9;
    pinners = suc w.pinners;
    pins = set_pins (set_pins w.pins w.pinners (w.next ∷ w.pins w.pinners)) w.pinners [];
  }

  abbrev pinned : ℕ → List ℕ
  pinned = set_pins queried.pins w.pinners ((w.next + 9) ∷ queried.pins w.pinners)

  abbrev finished : World S
  finished = record queried {
    mem = listed;
    next = w.next + 9 + suc (n * 8);
    pins = set_pins (set_pins pinned w.pinners (w.next ∷ pinned w.pinners)) w.pinners [];
  }

  gives :
      {A : Type 0} (f : List ℕ → A) (r : Outcome S A)
      → ((n == 0) ≡ true → r ≡ ok (f []) queried)
      → ((n == 0) ≡ false → r ≡ ok (f found) finished)
      → Gives w (f found) r
  gives f r empty full = elim (Bool-cases (n == 0)) [
    | inl hit ↦
        let none_left : [] ≡ found = sym (eq-nil found (ground arith)) in
        record {
          world = queried;
          returns = empty hit ∙ ap (λ x. ok (f x) queried) none_left;
          token = refl;
          same = counted-Same;
        }
    | inr miss ↦ record { world = finished; returns = full miss; token = refl; same = listed-Same }
  ]

module _ {S : Type 0} (env : Env S) (fl : FunctionList) (items : S → List ℕ) (w : World S)
    (some_address : 0 < w.next) (words : AreWords (items w.token))
    (small : length (items w.token) * 8 ≤ max_alloc) where
  -- GetSlotList, with ids that are words and an array within the allocation limit, on a module
  -- that reports the number of its slots without an array and writes them into an array with room
  -- for them: the caller gets exactly the module's slots in order, an empty list included; the
  -- module's state and memory that was in use are unchanged.
  pub get_slot_list-Gives :
      (present : Bool)
      → Enumerates env fl.c_get_slot_list (if present then 1 else 0) items
      → Gives w (items w.token) (get_slot_list env (record { fl = some fl }) present w)
  unfolding get_slot_list new_word allocate new_pinner pin unpin invoke functions syscall_n get_word
      first_words get_words counted zeroed buffered
  get_slot_list-Gives present follows =
      let (asked, count, filled, written, read) =
        replies env fl.c_get_slot_list (if present then 1 else 0) items follows w some_address words
          small in
      gives env fl.c_get_slot_list (if present then 1 else 0) items follows w some_address words
        small (λ x. x) _ (λ hit. rw (asked, count, hit) refl)
        (λ miss.
          rw
            (
              asked,
              count,
              miss,
              make_words_run (length (items w.token)) _ small,
              filled,
              written,
              leb_refl (length (items w.token)),
              read,
            )
            refl)

  -- GetMechanismList, with ids that are words and an array within the allocation limit, on a
  -- module that reports the number of its mechanisms without an array and writes them into an
  -- array with room for them: the caller gets exactly the module's mechanisms, without
  -- parameters, in order, an empty list included; the module's state and memory that was in use
  -- are unchanged.
  pub get_mechanism_list-Gives :
      (slot_id : ℕ)
      → Enumerates env fl.c_get_mechanism_list slot_id items
      → Gives w
          (map plain (items w.token))
          (get_mechanism_list env (record { fl = some fl }) slot_id w)
  unfolding get_mechanism_list new_word allocate new_pinner pin unpin invoke functions syscall_n
      get_word first_words get_words counted zeroed buffered
  get_mechanism_list-Gives slot_id follows =
      let (asked, count, filled, written, read) =
        replies env fl.c_get_mechanism_list slot_id items follows w some_address words small in
      gives env fl.c_get_mechanism_list slot_id items follows w some_address words small (map plain)
        _ (λ hit. rw (asked, count, hit) refl)
        (λ miss.
          rw
            (
              asked,
              count,
              miss,
              make_words_run (length (items w.token)) _ small,
              filled,
              written,
              leb_refl (length (items w.token)),
              read,
            )
            refl)
