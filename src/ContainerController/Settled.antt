-- ===== src/ContainerController/Settled.antt =====
-- A container that was made as its spec asks is not made again.
use k8s_docker_operator.Prelude.{
  ◌≡◌, refl, Bool, true, false, not, ◌||◌, String, Option, none, some, List, [], ◌∷◌, ◌++◌, All,
  ◌⊎◌, inl, inr, arith,
}
use text.Mathlib.TextPositions.{eq_refl}
use k8s_docker_operator.Prelude.Int.{ℤ, eqb_ℤ}
use k8s_docker_operator.Exec.{given}
use k8s_docker_operator.Api.Container.{DockerContainerSpec, ResourceRequirements}
use k8s_docker_operator.Outside.Docker.{Config, HostConfig, Inspected}
use k8s_docker_operator.Outside.Calls.{Libraries}
use k8s_docker_operator.JobController.Create.{no_resources}
use k8s_docker_operator.ContainerController.Drift.{
  is_none_given, contains, all_found, same_strings, build_docker_resources, image_differs,
  command_differs, env_differs, policy_differs, resources_differ, needs_recreate,
}

same_strings_refl : (xs : List String) → same_strings xs xs ≡ true
unfolding same_strings
same_strings_refl [] = refl
same_strings_refl (a ∷ xs) = rw (eq_refl, same_strings_refl xs) refl

eqb_ℤ_refl : (z : ℤ) → eqb_ℤ z z ≡ true
eqb_ℤ_refl z = ground arith

contains_weaken :
    (a : String) (xs expected : List String)
    → All (λ s. contains s xs ≡ true) expected
    → All (λ s. contains s (a ∷ xs) ≡ true) expected
unfolding contains
contains_weaken a xs [] h = tt
contains_weaken a xs (e ∷ es) h = (ground (arith, h.0), contains_weaken a xs es h.1)

contains_front : (front more : List String) → All (λ s. contains s (front ++ more) ≡ true) front
unfolding contains
contains_front [] more = tt
contains_front (a ∷ xs) more =
    (rw eq_refl refl, contains_weaken a (xs ++ more) xs (contains_front xs more))

all_found-All :
    (actuals expected : List String)
    → All (λ s. contains s actuals ≡ true) expected
    → all_found actuals expected ≡ true
unfolding all_found
all_found-All actuals [] h = refl
all_found-All actuals (e ∷ es) h = rw (h.0, all_found-All actuals es h.1) refl

module _ {F : Type 0} (libs : Libraries F) (sort : List String → List String) where
  -- Sorting brings no new element in.
  abbrev pub IsRearranging : Type 0
  IsRearranging =
      (p : String → Bool) (xs : List String)
      → All (λ s. p s ≡ true) xs
      → All (λ s. p s ≡ true) (sort xs)

  -- The settings that a creation gives: the spec's image, its command if it has one, its environment (with
  -- more behind it), its policy in lower case, and its resources.
  abbrev pub IsMadeFor : DockerContainerSpec → Config → HostConfig → Type 0
  IsMadeFor spec config host =
      (config.image ≡ spec.image)
      × ((is_none_given spec.command ≡ true) ⊎ (config.cmd ≡ spec.command))
      × ((more : List String) × (config.env ≡ spec.env ++ more))
      × (host.restart_policy ≡ libs.to_lower spec.restart_policy)
      × (host.resources ≡ given spec.resources (build_docker_resources libs) no_resources)

  env_same :
      IsRearranging
      → (spec : DockerContainerSpec) (config : Config) (more : List String)
      → config.env ≡ spec.env ++ more
      → env_differs libs sort config spec ≡ false
  unfolding env_differs
  env_same law spec config more e =
      let held : All (λ s. contains s (spec.env ++ more) ≡ true) spec.env =
        contains_front spec.env more in
      let found =
        all_found-All (spec.env ++ more) (sort spec.env)
          (law (λ s. contains s (spec.env ++ more)) spec.env held) in
      rw (e, found) (ground arith)

  command_same :
      (spec : DockerContainerSpec) (config : Config)
      → (is_none_given spec.command ≡ true) ⊎ (config.cmd ≡ spec.command)
      → command_differs libs sort config spec ≡ false
  unfolding command_differs
  command_same spec config (inl none_given) = rw none_given refl
  command_same spec config (inr same) = rw (same, same_strings_refl) (ground arith)

  policy_same :
      (spec : DockerContainerSpec) (host : HostConfig)
      → libs.to_lower (libs.to_lower spec.restart_policy) ≡ libs.to_lower spec.restart_policy
      → host.restart_policy ≡ libs.to_lower spec.restart_policy
      → policy_differs libs sort host spec ≡ false
  unfolding policy_differs
  policy_same spec host lower e = rw (e, lower, eq_refl) (ground arith)

  resources_same :
      (spec : DockerContainerSpec) (host : HostConfig)
      → host.resources ≡ given spec.resources (build_docker_resources libs) no_resources
      → resources_differ libs sort host spec ≡ false
  unfolding resources_differ given
  resources_same spec host e = rw e (same spec.resources)
    where
      same :
          (r : Option ResourceRequirements)
          → given r
              (λ (d : ResourceRequirements).
                not (
                  eqb_ℤ
                    (build_docker_resources libs d).nano_cpus
                    (given r (build_docker_resources libs) no_resources).nano_cpus)
                || not (
                    eqb_ℤ
                      (build_docker_resources libs d).memory
                      (given r (build_docker_resources libs) no_resources).memory))
              false
            ≡ false
      same none = refl
      same (some r) = rw (eqb_ℤ_refl, eqb_ℤ_refl) refl

  -- Where lower case is idempotent on the policy and sorting brings no new element in, a container whose
  -- settings are those that a creation gives is not recreated.
  pub needs_recreate-IsMadeFor :
      IsRearranging
      → (spec : DockerContainerSpec) (inspected : Inspected) (config : Config) (host : HostConfig)
      → libs.to_lower (libs.to_lower spec.restart_policy) ≡ libs.to_lower spec.restart_policy
      → inspected.config ≡ some config
      → inspected.host_config ≡ some host
      → IsMadeFor spec config host
      → needs_recreate libs sort inspected spec ≡ false
  unfolding needs_recreate given image_differs
  needs_recreate-IsMadeFor law spec inspected config host lower c h
        (image, cmd, (more, env), policy, resources) =
      let o = command_same spec config cmd in
      let a = env_same law spec config more env in
      let b = policy_same spec host lower policy in
      let d = resources_same spec host resources in
      rw (c, h, a, b, d, o, image, eq_refl) (ground arith)
