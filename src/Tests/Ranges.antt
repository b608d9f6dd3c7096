-- ===== src/Tests/Ranges.antt =====
-- A page of the range of the pods, and the keys of nodes.
use harikube.Common.{codes, bytes_lt, not, ◌&&◌, ◌++◌, [], ◌∷◌, ◌≡◌, refl}
use harikube.Resources.{
  ObjectType, get_object_by_key, get_resource_mapping, gvk_of, get_object_by_key-mapping,
}
use harikube.T4.{translate_range}
use harikube.T4.Prefixes.{is_read, translate_range-is_read}

-- The second page of the pods, from `/pods/b` on.
translate_range-is_read_example :
    (not (bytes_lt (codes "/pods/c") (codes "/pods" ++ 47 ∷ codes "b"))
      && bytes_lt (codes "/pods/c") (codes "/pods" ++ 48 ∷ []))
    ≡ is_read
        (translate_range (codes "/pods" ++ 47 ∷ codes "b") (codes "/pods" ++ 48 ∷ []))
        (codes "/pods/c")
translate_range-is_read_example =
    translate_range-is_read (codes "/pods") 47 (codes "b") (codes "/pods/c")

-- Every kind has the plural of config maps here.
get_object_by_key-mapping_example :
    get_object_by_key (
      (get_resource_mapping (λ kind. codes "configmaps") (gvk_of ObjectType.node)).registry_prefix
      ++ codes "n1")
    ≡ ObjectType.node
get_object_by_key-mapping_example =
    get_object_by_key-mapping (λ kind. codes "configmaps") ObjectType.node (codes "n1") refl
