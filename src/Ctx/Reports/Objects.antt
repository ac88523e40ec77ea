-- ===== src/Ctx/Reports/Objects.antt =====
-- The methods on objects report what the module returns.
use gopkcs.Prelude.{ℕ, List}
use gopkcs.Machine.Reports.{Reports, Logs}
use gopkcs.Ctx.Reports.Base.{shared}
use gopkcs.Ctx.Reports.Marshal.{
  marshal_attributes-Reports, pin_non_null-Reports, marshal_attributes_for_query-Reports,
  marshal_attributes_with_buffers-Reports, query_sizes-Reports, unmarshal_attributes-Reports,
}
use gopkcs.Machine.Effects.{Env}
use gopkcs.Ctx.Objects.{
  create_object, copy_object, destroy_object, get_object_size, get_attribute_value,
  set_attribute_value, find_objects_init, find_objects, find_objects_final,
}
use gopkcs.Ctx.Base.{Ctx}
use gopkcs.Types.{Attribute}
use gopkcs.Prelude.Int.{ℤ}

module _ {S : Type 0} (log : S → List ℕ) (env : Env S) (logs : Logs env log) (c : Ctx) where
  pub create_object-Reports :
      (sh : ℕ) (temp : List Attribute) → Reports log (create_object env c sh temp)
  unfolding create_object
  create_object-Reports sh temp = search (shared, marshal_attributes-Reports) depth 40

  pub copy_object-Reports :
      (sh : ℕ) (o : ℕ) (temp : List Attribute) → Reports log (copy_object env c sh o temp)
  unfolding copy_object
  copy_object-Reports sh o temp = search (shared, marshal_attributes-Reports) depth 40

  pub destroy_object-Reports : (sh : ℕ) (oh : ℕ) → Reports log (destroy_object env c sh oh)
  unfolding destroy_object
  destroy_object-Reports sh oh = search shared depth 40

  pub get_object_size-Reports : (sh : ℕ) (oh : ℕ) → Reports log (get_object_size env c sh oh)
  unfolding get_object_size
  get_object_size-Reports sh oh = search shared depth 40

  pub get_attribute_value-Reports :
      (sh : ℕ) (o : ℕ) (a : List Attribute) → Reports log (get_attribute_value env c sh o a)
  unfolding get_attribute_value
  get_attribute_value-Reports sh o a =
      search
        (
          shared, marshal_attributes_for_query-Reports, marshal_attributes_with_buffers-Reports,
          query_sizes-Reports, unmarshal_attributes-Reports,
        )
        depth 40

  pub set_attribute_value-Reports :
      (sh : ℕ) (o : ℕ) (a : List Attribute) → Reports log (set_attribute_value env c sh o a)
  unfolding set_attribute_value
  set_attribute_value-Reports sh o a = search (shared, marshal_attributes-Reports) depth 40

  pub find_objects_init-Reports :
      (sh : ℕ) (temp : List Attribute) → Reports log (find_objects_init env c sh temp)
  unfolding find_objects_init
  find_objects_init-Reports sh temp = search (shared, marshal_attributes-Reports) depth 40

  pub find_objects-Reports :
      (sh : ℕ) (max_objects : ℤ) → Reports log (find_objects env c sh max_objects)
  unfolding find_objects
  find_objects-Reports sh max_objects = search (shared, pin_non_null-Reports) depth 40

  pub find_objects_final-Reports : (sh : ℕ) → Reports log (find_objects_final env c sh)
  unfolding find_objects_final
  find_objects_final-Reports sh = search shared depth 40
