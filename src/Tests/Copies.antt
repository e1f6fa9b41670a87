-- ===== src/Tests/Copies.antt =====
-- The copies of the resources in a small memory. The metadata are texts; a time is a number in a cell.
use k8s_docker_operator.Prelude.{ℕ, ◌≡◌, refl, String, none, some, [], ◌∷◌, ◌++◌, length}
use k8s_docker_operator.Prelude.Int.{ℤ, pos}
use k8s_docker_operator.Api.Container.{ServicePort}
use k8s_docker_operator.Api.Copies.Memory.{Heap, Copier, plain, there, and_then}
use k8s_docker_operator.Api.Copies.Cells.{
  Holds, Holds-discrete, Cell, cell_of, DockerServiceSpecAt, HealthCheckConfigAt,
}
use k8s_docker_operator.Api.Copies.Leaf.{health_copy}
use k8s_docker_operator.Api.Copies.Deep.{IsDeep, plain-IsDeep, there-IsDeep}
use k8s_docker_operator.Api.Copies.Container.{container_list_copy, host_list_copy}
use k8s_docker_operator.Api.Copies.Job.{job_list_copy}
use k8s_docker_operator.Api.Copies.Deployment.{deployment_list_copy}
use k8s_docker_operator.Api.Copies.Service.{selected, deep_copy_into, deep_copy_into-view}
use k8s_docker_operator.Api.Copies.Apart.{list_copies-IsDeep}

abbrev SmallCell : Type 0
SmallCell = Cell String String String String ℤ

abbrev text : Copier SmallCell String String
text = plain

abbrev time : Copier SmallCell ℕ ℤ
time = there (cell_of Holds.foreign) plain

list_copies-IsDeep_example :
    IsDeep (container_list_copy text text)
    × IsDeep (host_list_copy text text)
    × IsDeep (job_list_copy time text text)
    × IsDeep (deployment_list_copy text text text text)
list_copies-IsDeep_example =
    list_copies-IsDeep plain-IsDeep plain-IsDeep plain-IsDeep plain-IsDeep
      (there-IsDeep (cell_of Holds.foreign) plain-IsDeep)

abbrev health_at : HealthCheckConfigAt
health_at = record { test = some 0; interval = "5s"; timeout = ""; retries = pos 2 }

-- A health check and its command are copied into cells of their own, the command first.
health_copied :
    (health_copy {M = String} {L = String} {S = String} {C = String} {X = ℤ}).copy
      (some 1)
      ((Holds.strings, "true" ∷ []) ∷ (Holds.health, health_at) ∷ [])
    ≡ (
      some 3,
      (Holds.strings, "true" ∷ [])
          ∷ (Holds.health, health_at)
          ∷ (Holds.strings, "true" ∷ [])
          ∷ (Holds.health, record health_at { test = some 2 })
          ∷ [],
    )
unfolding Holds-discrete
health_copied = refl

abbrev spec_at : DockerServiceSpecAt
spec_at = record { container_ref = ""; selector = some 0; ports = some 1; network_mode = "" }

abbrev port : ServicePort
port = record { port = pos 80; target_port = pos 8080; name = "http" }

abbrev memory : Heap SmallCell
memory = (Holds.label_selector, "app=web") ∷ (Holds.ports, port ∷ []) ∷ []

deep_copy_into-view_example :
    let (copy, after) = (deep_copy_into text).copy spec_at memory in
    ((deep_copy_into text).read copy after ≡ (deep_copy_into text).read spec_at memory)
    × (copy.selector ≡ some 0)
    × (new : Heap SmallCell) × (after ≡ memory ++ new)
    × ((other : Heap SmallCell)
        → length other ≡ 2
        → (deep_copy_into text).read copy (other ++ new)
          ≡ and_then ((selected text).read (some 0) (other ++ new)) (λ now.
            some (record spec_at { selector = none; ports = none }, (now, some (port ∷ [])))))
unfolding Holds-discrete
deep_copy_into-view_example =
    deep_copy_into-view text plain-IsDeep spec_at memory (some "app=web") (some (port ∷ [])) refl
      refl
