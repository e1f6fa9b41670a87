-- ===== src/Api/Copies/Resource.antt =====
-- The copies of a resource and of a list of resources. Each kind of resource in api/v1alpha1 has its own
-- methods, which differ in the types and in how they copy the spec and the status.
use k8s_docker_operator.Prelude.{ℕ, refl, Option, List}
use k8s_docker_operator.Api.Copies.Memory.{Kind, Copier, Fields, ◌⊗◌, each, at, struct}
use k8s_docker_operator.Api.Copies.Cells.{TypeMeta, ObjectAt, ListAt}
use k8s_docker_operator.Api.Copies.Deep.{IsDeep, ⊗-IsDeep, each-IsDeep, at-IsDeep, struct-IsDeep}

abbrev object_fields : {M T U : Type 0} → Fields (ObjectAt M T U) (M × (T × U)) TypeMeta
object_fields = record {
  get = λ o. (o.meta, (o.spec, o.status));
  rest = λ o. o.type_meta;
  put = λ o (m, (t, u)). record { type_meta = o.type_meta; meta = m; spec = t; status = u };
  get-put = λ o a. refl;
  rest-put = λ o a. refl;
}

abbrev list_fields : {L : Type 0} → Fields (ListAt L) (L × Option ℕ) TypeMeta
list_fields = record {
  get = λ l. (l.meta, l.items);
  rest = λ l. l.type_meta;
  put = λ l (m, p). record { type_meta = l.type_meta; meta = m; items = p };
  get-put = λ l a. refl;
  rest-put = λ l a. refl;
}

-- What a resource and a list stand for.
abbrev pub ObjectView : (V T U : Type 0) → Type 0
ObjectView V T U = TypeMeta × (V × (T × U))

abbrev pub ListView : (W O : Type 0) → Type 0
ListView W O = TypeMeta × (W × Option (List O))

module _ {X : Type 0} where
  abbrev pub object_into :
      {M T U V T' U' : Type 0}
      → Copier X M V
      → Copier X T T'
      → Copier X U U'
      → Copier X (ObjectAt M T U) (ObjectView V T' U')
  object_into meta spec status = struct object_fields (meta ⊗ spec ⊗ status)

  abbrev pub list_into :
      {L W A O : Type 0}
      → Copier X L W
      → Kind X (List A)
      → Copier X A O
      → Copier X (ListAt L) (ListView W O)
  list_into meta items object = struct list_fields (meta ⊗ at items (each object))

  pub object_into-IsDeep :
      {M T U V T' U' : Type 0} {meta : Copier X M V} {spec : Copier X T T'} {status : Copier X U U'}
      → IsDeep meta
      → IsDeep spec
      → IsDeep status
      → IsDeep (object_into meta spec status)
  object_into-IsDeep deep_meta deep_spec deep_status =
      struct-IsDeep object_fields (⊗-IsDeep deep_meta (⊗-IsDeep deep_spec deep_status))

  -- The copy of a pointer to a list.
  pub list_into-IsDeep :
      {L W A O : Type 0} {meta : Copier X L W} {object : Copier X A O}
      → (pointer : Kind X (ListAt L)) (items : Kind X (List A)) → IsDeep meta
      → IsDeep object
      → IsDeep (at pointer (list_into meta items object))
  list_into-IsDeep pointer items deep_meta deep_object =
      at-IsDeep pointer
        (struct-IsDeep list_fields (⊗-IsDeep deep_meta (at-IsDeep items (each-IsDeep deep_object))))
