-- ===== src/Ctx/Objects.antt =====
-- The methods of pkcs11.go on objects and their attributes.
pub mod Convention
pub mod Answers
pub mod Prepared
pub mod Buffer
pub mod Buffered
pub mod Values
pub mod Passes
pub mod GetAttributes
use gopkcs.Prelude.{ℕ, Bool, List, [], ◌∷◌, ltb, length}
use gopkcs.Prelude.Int.{ℤ, to_u64}
use gopkcs.Machine.Effects.{
  Env, M, pure, ◌>>=◌, ◌>>◌, new_word, get_word, make_words_int, pin, with_pinner,
}
use gopkcs.Errors.{check}
use gopkcs.Types.{Attribute}
use gopkcs.Arena.{
  pin_non_null, marshal_attributes, marshal_attributes_for_query, marshal_attributes_with_buffers,
  query_sizes, unmarshal_attributes,
}
use gopkcs.Ctx.Base.{Ctx, invoke, first_words}

module _ {S : Type 0} (env : Env S) (c : Ctx) where
  unfoldable pub create_object : ℕ → List Attribute → M S ℕ
  create_object sh temp = with_pinner λ a. do
    (attr_ptr, attr_len) ← marshal_attributes a temp
    obj ← new_word
    pin a obj
    rv ← invoke env c (λ fl. fl.c_create_object) (sh ∷ attr_ptr ∷ attr_len ∷ obj ∷ [])
    check rv
    get_word obj

  unfoldable pub copy_object : ℕ → ℕ → List Attribute → M S ℕ
  copy_object sh o temp = with_pinner λ a. do
    (attr_ptr, attr_len) ← marshal_attributes a temp
    obj ← new_word
    pin a obj
    rv ← invoke env c (λ fl. fl.c_copy_object) (sh ∷ o ∷ attr_ptr ∷ attr_len ∷ obj ∷ [])
    check rv
    get_word obj

  unfoldable pub destroy_object : ℕ → ℕ → M S (Unit {0})
  destroy_object sh oh = do rv ← invoke env c (λ fl. fl.c_destroy_object) (sh ∷ oh ∷ []); check rv

  unfoldable pub get_object_size : ℕ → ℕ → M S ℕ
  get_object_size sh oh = with_pinner λ a. do
    size ← new_word
    pin a size
    rv ← invoke env c (λ fl. fl.c_get_object_size) (sh ∷ oh ∷ size ∷ [])
    check rv
    get_word size

  -- Two arenas, both released at the end.
  unfoldable pub get_attribute_value : ℕ → ℕ → List Attribute → M S (List Attribute)
  get_attribute_value sh o a = with_pinner λ ar. do
    (query_ptr, query_len, query_buf) ← marshal_attributes_for_query ar a
    rv ← invoke env c (λ fl. fl.c_get_attribute_value) (sh ∷ o ∷ query_ptr ∷ query_len ∷ [])
    check rv
    sizes ← query_sizes query_buf.ptr (length a)
    with_pinner λ ar2. do
      (attr_ptr, attr_len, attr_buf, values) ← marshal_attributes_with_buffers ar2 a sizes
      rv2 ← invoke env c (λ fl. fl.c_get_attribute_value) (sh ∷ o ∷ attr_ptr ∷ attr_len ∷ [])
      check rv2
      unmarshal_attributes attr_buf.ptr values

  unfoldable pub set_attribute_value : ℕ → ℕ → List Attribute → M S (Unit {0})
  set_attribute_value sh o a = with_pinner λ ar. do
    (attr_ptr, attr_len) ← marshal_attributes ar a
    rv ← invoke env c (λ fl. fl.c_set_attribute_value) (sh ∷ o ∷ attr_ptr ∷ attr_len ∷ [])
    check rv

  unfoldable pub find_objects_init : ℕ → List Attribute → M S (Unit {0})
  find_objects_init sh temp = with_pinner λ a. do
    (attr_ptr, attr_len) ← marshal_attributes a temp
    rv ← invoke env c (λ fl. fl.c_find_objects_init) (sh ∷ attr_ptr ∷ attr_len ∷ [])
    check rv

  -- The handles, and whether there are any.
  unfoldable pub find_objects : ℕ → ℤ → M S (List ℕ × Bool)
  find_objects sh max_objects = do
    objs ← make_words_int max_objects
    count ← new_word
    with_pinner λ o. do
      p_objs ← pin_non_null 8 o objs
      pin o count
      rv ← invoke env c (λ fl. fl.c_find_objects) (sh ∷ p_objs ∷ to_u64 max_objects ∷ count ∷ [])
      check rv
      n ← get_word count
      handles ← first_words objs n
      pure (handles, ltb 0 n)

  unfoldable pub find_objects_final : ℕ → M S (Unit {0})
  find_objects_final sh = do rv ← invoke env c (λ fl. fl.c_find_objects_final) (sh ∷ []); check rv
