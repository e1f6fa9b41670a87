-- ===== src/ContainerController/Exact.antt =====
-- What `needsRecreate` compares, as a relation between a container and its spec.
use k8s_docker_operator.Prelude.{
  ◌≡◌, ◌↔◌, ◌⊎◌, refl, ap, true, false, not, ◌&&◌, ◌||◌, String, Option, none, some, List, [], ◌∷◌,
  All, eq_iff, arith,
}
use k8s_docker_operator.Prelude.Int.{ℤ, eqb_ℤ}
use k8s_docker_operator.Exec.{given}
use k8s_docker_operator.Api.Container.{DockerContainerSpec, ResourceRequirements}
use k8s_docker_operator.Outside.Docker.{Config, HostConfig, Inspected, Resources}
use k8s_docker_operator.Outside.Calls.{Libraries}
use k8s_docker_operator.ContainerController.Drift.{
  is_none_given, contains, all_found, same_strings, build_docker_resources, image_differs,
  command_differs, env_differs, policy_differs, resources_differ, needs_recreate,
}

abbrev pub Occurs : String → List String → Type 0
Occurs s [] = ⊥
Occurs s (a ∷ xs) = (a ≡ s) ⊎ Occurs s xs

contains_iff : (s : String) (xs : List String) → (contains s xs ≡ true) ↔ Occurs s xs
unfolding contains
contains_iff s [] = ground arith
contains_iff s (a ∷ xs) = ground (arith, eq_iff a s, contains_iff s xs)

all_found_iff :
    (actuals expected : List String)
    → (all_found actuals expected ≡ true) ↔ All (λ s. Occurs s actuals) expected
unfolding all_found
all_found_iff actuals [] = ground arith
all_found_iff actuals (e ∷ es) = ground (arith, contains_iff e actuals, all_found_iff actuals es)

same_strings_iff : (xs ys : List String) → (same_strings xs ys ≡ true) ↔ (xs ≡ ys)
unfolding same_strings
same_strings_iff [] [] = ground arith
same_strings_iff [] (b ∷ ys) = ground arith
same_strings_iff (a ∷ xs) [] = ground arith
same_strings_iff (a ∷ xs) (b ∷ ys) = ground (arith, eq_iff a b, same_strings_iff xs ys)

eqb_ℤ_iff : (a b : ℤ) → (eqb_ℤ a b ≡ true) ↔ (a ≡ b)
eqb_ℤ_iff a b = ground arith

resources_equal :
    (a b : Resources)
    → ((not (eqb_ℤ a.nano_cpus b.nano_cpus) || not (eqb_ℤ a.memory b.memory)) ≡ false) ↔ (a ≡ b)
resources_equal a b =
    let cpus = eqb_ℤ_iff a.nano_cpus b.nano_cpus in
    let memory = eqb_ℤ_iff a.memory b.memory in
    (
      λ same. λ j. record {
        nano_cpus = cpus.0 (ground (arith, same)) j;
        memory = memory.0 (ground (arith, same)) j;
      },
      λ e.
          rw
            (
              cpus.1 (ap (λ (r : Resources). r.nano_cpus) e),
              memory.1 (ap (λ (r : Resources). r.memory) e),
            )
            refl,
    )

module _ {F : Type 0} (libs : Libraries F) (sort : List String → List String) where
  -- Sorting keeps what holds of all elements, and brings no element in.
  abbrev pub IsSorting : Type 1
  IsSorting = (P : String → Type 0) (xs : List String) → All P (sort xs) ↔ All P xs

  image_iff :
      (config : Config) (spec : DockerContainerSpec)
      → (image_differs libs sort config spec ≡ false) ↔ (config.image ≡ spec.image)
  unfolding image_differs
  image_iff config spec = ground (arith, eq_iff config.image spec.image)

  command_iff :
      (config : Config) (spec : DockerContainerSpec)
      → (command_differs libs sort config spec ≡ false)
        ↔ ((spec.command ≡ []) ⊎ (config.cmd ≡ spec.command))
  unfolding command_differs
  command_iff config spec = by_command spec.command
    where
      by_command :
          (asked : List String)
          → ((not (is_none_given asked) && not (same_strings config.cmd asked)) ≡ false)
            ↔ ((asked ≡ []) ⊎ (config.cmd ≡ asked))
      by_command [] = ground arith
      by_command (a ∷ rest) = ground (arith, same_strings_iff config.cmd (a ∷ rest))

  env_iff :
      IsSorting
      → (config : Config) (spec : DockerContainerSpec)
      → (env_differs libs sort config spec ≡ false) ↔ All (λ s. Occurs s config.env) spec.env
  unfolding env_differs
  env_iff law config spec = by_env spec.env
    where
      by_env :
          (asked : List String)
          → ((not (is_none_given asked) && not (all_found config.env (sort asked))) ≡ false)
            ↔ All (λ s. Occurs s config.env) asked
      by_env [] = ground arith
      by_env (a ∷ rest) =
          let found = all_found_iff config.env (sort (a ∷ rest)) in
          let sorted = law (λ s. Occurs s config.env) (a ∷ rest) in
          (λ same. sorted.0 (found.0 (ground arith)), λ held. rw (found.1 (sorted.1 held)) refl)

  policy_iff :
      (host : HostConfig) (spec : DockerContainerSpec)
      → (policy_differs libs sort host spec ≡ false) ↔ (
          (spec.restart_policy ≡ "")
          ⊎ (libs.to_lower host.restart_policy ≡ libs.to_lower spec.restart_policy))
  unfolding policy_differs
  policy_iff host spec = ground (
    arith,
    eq_iff spec.restart_policy "",
    eq_iff (libs.to_lower host.restart_policy) (libs.to_lower spec.restart_policy),
  )

  resources_iff :
      (host : HostConfig) (spec : DockerContainerSpec)
      → (resources_differ libs sort host spec ≡ false)
        ↔ given spec.resources (λ r. build_docker_resources libs r ≡ host.resources) Unit
  unfolding resources_differ given
  resources_iff host spec = by_resources spec.resources
    where
      by_resources :
          (asked : Option ResourceRequirements)
          → (given asked
                (λ r.
                  let desired = build_docker_resources libs r in
                  not (eqb_ℤ desired.nano_cpus host.resources.nano_cpus)
                  || not (eqb_ℤ desired.memory host.resources.memory))
                false
              ≡ false)
            ↔ given asked (λ r. build_docker_resources libs r ≡ host.resources) Unit
      by_resources none = (λ _. tt, λ _. refl)
      by_resources (some r) = resources_equal (build_docker_resources libs r) host.resources

  host_iff :
      (inspected : Inspected) (spec : DockerContainerSpec)
      → (given inspected.host_config
            (λ host. policy_differs libs sort host spec || resources_differ libs sort host spec)
            false
          ≡ false)
        ↔ given inspected.host_config
            (λ host.
              ((spec.restart_policy ≡ "")
                ⊎ (libs.to_lower host.restart_policy ≡ libs.to_lower spec.restart_policy))
              × given spec.resources (λ r. build_docker_resources libs r ≡ host.resources) Unit)
            Unit
  unfolding given
  host_iff inspected spec = by_host inspected.host_config
    where
      by_host :
          (o : Option HostConfig)
          → (given o
                (λ host. policy_differs libs sort host spec || resources_differ libs sort host spec)
                false
              ≡ false)
            ↔ given o
                (λ host.
                  ((spec.restart_policy ≡ "")
                    ⊎ (libs.to_lower host.restart_policy ≡ libs.to_lower spec.restart_policy))
                  × given spec.resources (λ r. build_docker_resources libs r ≡ host.resources) Unit)
                Unit
      by_host none = (λ _. tt, λ _. refl)
      by_host (some host) = ground (arith, policy_iff host spec, resources_iff host spec)

  -- Where sorting neither drops nor brings in an element: `needsRecreate` leaves a container as it is exactly
  -- if its inspection gives no configuration, or the configuration has the image of the spec, its command if
  -- the spec has one, and each of its plain variables, perhaps beside others, and the host configuration, if
  -- the inspection gives one, has the spec's restart policy, as compared in lower case, if the spec has one, and
  -- its limits if the spec has some. So ports, volumes, the health check, the network, variables from Secrets
  -- and what the spec no longer asks do not count.
  pub needs_recreate-exact :
      IsSorting
      → (spec : DockerContainerSpec) (inspected : Inspected)
      → (needs_recreate libs sort inspected spec ≡ false)
        ↔ given inspected.config
            (λ config.
              (config.image ≡ spec.image)
              × ((spec.command ≡ []) ⊎ (config.cmd ≡ spec.command))
              × All (λ s. Occurs s config.env) spec.env
              × given inspected.host_config
                  (λ host.
                    ((spec.restart_policy ≡ "")
                      ⊎ (libs.to_lower host.restart_policy ≡ libs.to_lower spec.restart_policy))
                    × given spec.resources
                        (λ r. build_docker_resources libs r ≡ host.resources)
                        Unit)
                  Unit)
            Unit
  unfolding needs_recreate given
  needs_recreate-exact law spec inspected = by_config inspected.config
    where
      by_config :
          (o : Option Config)
          → (given o
                (λ config.
                  image_differs libs sort config spec
                  || command_differs libs sort config spec
                  || env_differs libs sort config spec
                  || given inspected.host_config
                      (λ host.
                        policy_differs libs sort host spec || resources_differ libs sort host spec)
                      false)
                false
              ≡ false)
            ↔ given o
                (λ config.
                  (config.image ≡ spec.image)
                  × ((spec.command ≡ []) ⊎ (config.cmd ≡ spec.command))
                  × All (λ s. Occurs s config.env) spec.env
                  × given inspected.host_config
                      (λ host.
                        ((spec.restart_policy ≡ "")
                          ⊎ (libs.to_lower host.restart_policy ≡ libs.to_lower spec.restart_policy))
                        × given spec.resources
                            (λ r. build_docker_resources libs r ≡ host.resources)
                            Unit)
                      Unit)
                Unit
      by_config none = (λ _. tt, λ _. refl)
      by_config (some config) = ground (
        arith,
        image_iff config spec,
        command_iff config spec,
        env_iff law config spec,
        host_iff inspected spec,
      )
