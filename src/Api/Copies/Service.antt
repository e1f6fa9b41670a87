-- ===== src/Api/Copies/Service.antt =====
-- The copies of DockerService, its lists, specs and statuses in api/v1alpha1/deepcopy.go.
use k8s_docker_operator.Prelude.{ℕ, ◌≡◌, refl, Option, none, some, List, ◌++◌, length}
use k8s_docker_operator.Api.Container.{ServicePort}
use k8s_docker_operator.Api.Service.{DockerServiceStatus}
use k8s_docker_operator.Api.Copies.Memory.{
  Heap, Copier, Fields, and_then, plain, ◌⊗◌, at, shared, struct,
}
use k8s_docker_operator.Api.Copies.Cells.{
  Holds, Cell, cell_of, DockerServiceSpecAt, ObjectAt, ListAt,
}
use k8s_docker_operator.Api.Copies.Leaf.{ports}
use k8s_docker_operator.Api.Copies.Resource.{ObjectView, ListView, object_into, list_into}
use k8s_docker_operator.Api.Copies.Deep.{IsDeep, plain-IsDeep, at-IsDeep}

abbrev with_pointers : DockerServiceSpecAt → (Option ℕ × Option ℕ) → DockerServiceSpecAt
with_pointers s (selector, ports) = record s { selector = selector; ports = ports }

abbrev spec_fields : Fields DockerServiceSpecAt (Option ℕ × Option ℕ) DockerServiceSpecAt
spec_fields = record {
  get = λ s. (s.selector, s.ports);
  rest = λ s. with_pointers s (none, none);
  put = with_pointers;
  get-put = λ s a. refl;
  rest-put = λ s a. refl;
}

-- What a spec stands for: its other fields, what its selector points at, and its ports.
abbrev DockerServiceSpecView : Type 0 → Type 0
DockerServiceSpecView T = DockerServiceSpecAt × (Option T × Option (List ServicePort))

and_then-twice :
    {A B D : Type 0} (o : Option A) (b : B) (d : D)
    → and_then {B = D × (A × B)} (and_then {B = A × B} o (λ a. some (a, b))) (λ p. some (d, p))
      ≡ and_then o (λ a. some (d, (a, b)))
and_then-twice none b d = refl
and_then-twice (some a) b d = refl

module _ {M L S C X : Type 0} where
  abbrev service_status_copy : Copier (Cell M L S C X) (Option ℕ) (Option DockerServiceStatus)
  service_status_copy = at (cell_of Holds.service_status) plain

  -- `selector` is the copy that metav1.LabelSelector makes; the code does not call it, and what it says is
  -- what a selector stands for.
  module _ {T : Type 0} (selector : Copier (Cell M L S C X) S T) where
    abbrev pub selected : Copier (Cell M L S C X) (Option ℕ) (Option T)
    selected = shared (cell_of Holds.label_selector) selector

    -- The selector stays the one of `*out = *in`.
    abbrev pub deep_copy_into :
        Copier (Cell M L S C X) DockerServiceSpecAt (DockerServiceSpecView T)
    deep_copy_into = struct spec_fields (selected ⊗ ports)

    abbrev service_spec_copy : Copier (Cell M L S C X) (Option ℕ) (Option (DockerServiceSpecView T))
    service_spec_copy = at (cell_of Holds.service_spec) deep_copy_into

    -- A spec whose selector stands for `t` and whose ports are `u`, copied: the copy reads the same, only new cells
    -- have come to the memory, and the copy has the selector's address of the spec. So with whatever in place
    -- of the old cells, the copy still has the ports `u`, but the selector that the spec has then.
    pub deep_copy_into-view :
        IsDeep selector
        → (spec : DockerServiceSpecAt) (h : Heap (Cell M L S C X)) (t : Option T)
          (u : Option (List ServicePort))
        → selected.read spec.selector h ≡ some t
        → ports.read spec.ports h ≡ some u
        → let (copy, h') = deep_copy_into.copy spec h in
          (deep_copy_into.read copy h' ≡ deep_copy_into.read spec h)
          × (copy.selector ≡ spec.selector)
          × (new : Heap (Cell M L S C X)) × (h' ≡ h ++ new)
          × ((other : Heap (Cell M L S C X))
              → length other ≡ length h
              → deep_copy_into.read copy (other ++ new)
                ≡ and_then
                    (selected.read spec.selector (other ++ new))
                    (λ now. some (with_pointers spec (none, none), (now, u))))
    deep_copy_into-view deep spec h t u got_t got_u =
        let (new, grown, apart) =
          (at-IsDeep (cell_of Holds.ports) plain-IsDeep).apart spec.ports h u got_u in
        let still =
          (at-IsDeep (cell_of Holds.label_selector) deep).stable spec.selector h new t got_t in
        (
          rw (grown, still, apart h refl, got_t, got_u) refl,
          refl,
          new,
          grown,
          λ other same_length.
              let now = selected.read spec.selector (other ++ new) in
              rw (apart other same_length) (and_then-twice now u (with_pointers spec (none, none))),
        )

    -- The methods that need the copies of metav1.ObjectMeta and metav1.ListMeta.
    module _ {V W : Type 0} (meta : Copier (Cell M L S C X) M V)
        (list_meta : Copier (Cell M L S C X) L W) where
      abbrev ServiceView : Type 0
      ServiceView = ObjectView V (DockerServiceSpecView T) DockerServiceStatus

      abbrev service_into :
          Copier (Cell M L S C X) (ObjectAt M DockerServiceSpecAt DockerServiceStatus) ServiceView
      service_into = object_into meta deep_copy_into plain

      abbrev service_copy : Copier (Cell M L S C X) (Option ℕ) (Option ServiceView)
      service_copy = at (cell_of Holds.service) service_into

      abbrev service_list_into : Copier (Cell M L S C X) (ListAt L) (ListView W ServiceView)
      service_list_into = list_into list_meta (cell_of Holds.services) service_into

      abbrev service_list_copy :
          Copier (Cell M L S C X) (Option ℕ) (Option (ListView W ServiceView))
      service_list_copy = at (cell_of Holds.resource_list) service_list_into
