-- ===== src/Ctx/Pins/Objects.antt =====
-- Which pinners the methods on objects use: none but their own.
use gopkcs.Prelude.{ℕ, none, List}
use gopkcs.Machine.Effects.{Env}
use gopkcs.Machine.Pins.{Uses}
use gopkcs.Ctx.Pins.Base.{shared}
use gopkcs.Ctx.Objects.{
  create_object, copy_object, destroy_object, get_object_size, get_attribute_value,
  set_attribute_value, find_objects_init, find_objects, find_objects_final,
}
use gopkcs.Ctx.Base.{Ctx}
use gopkcs.Types.{Attribute}
use gopkcs.Prelude.Int.{ℤ}
use gopkcs.Ctx.Pins.Marshal.{
  unmarshal_attributes-Uses, query_sizes-Uses, marshal_attributes_with_buffers-Uses,
  pin_non_null-Uses, marshal_attributes_for_query-Uses, marshal_attributes-Uses,
}

module _ {S : Type 0} (env : Env S) (c : Ctx) where
  pub create_object-Uses :
      (sh : ℕ) (temp : List Attribute) → Uses none (create_object env c sh temp)
  unfolding create_object
  create_object-Uses sh temp = search (shared, marshal_attributes-Uses) depth 40

  pub copy_object-Uses :
      (sh : ℕ) (o : ℕ) (temp : List Attribute) → Uses none (copy_object env c sh o temp)
  unfolding copy_object
  copy_object-Uses sh o temp = search (shared, marshal_attributes-Uses) depth 40

  pub destroy_object-Uses : (sh : ℕ) (oh : ℕ) → Uses none (destroy_object env c sh oh)
  unfolding destroy_object
  destroy_object-Uses sh oh = search shared depth 40

  pub get_object_size-Uses : (sh : ℕ) (oh : ℕ) → Uses none (get_object_size env c sh oh)
  unfolding get_object_size
  get_object_size-Uses sh oh = search shared depth 40

  pub get_attribute_value-Uses :
      (sh : ℕ) (o : ℕ) (a : List Attribute) → Uses none (get_attribute_value env c sh o a)
  unfolding get_attribute_value
  get_attribute_value-Uses sh o a =
      search
        (
          shared, marshal_attributes_for_query-Uses, marshal_attributes_with_buffers-Uses,
          query_sizes-Uses, unmarshal_attributes-Uses,
        )
        depth 40

  pub set_attribute_value-Uses :
      (sh : ℕ) (o : ℕ) (a : List Attribute) → Uses none (set_attribute_value env c sh o a)
  unfolding set_attribute_value
  set_attribute_value-Uses sh o a = search (shared, marshal_attributes-Uses) depth 40

  pub find_objects_init-Uses :
      (sh : ℕ) (temp : List Attribute) → Uses none (find_objects_init env c sh temp)
  unfolding find_objects_init
  find_objects_init-Uses sh temp = search (shared, marshal_attributes-Uses) depth 40

  pub find_objects-Uses : (sh : ℕ) (max_objects : ℤ) → Uses none (find_objects env c sh max_objects)
  unfolding find_objects
  find_objects-Uses sh max_objects = search (shared, pin_non_null-Uses) depth 40

  pub find_objects_final-Uses : (sh : ℕ) → Uses none (find_objects_final env c sh)
  unfolding find_objects_final
  find_objects_final-Uses sh = search shared depth 40
