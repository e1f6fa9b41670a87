-- ===== src/ContainerController/Drift.antt =====
-- `needsRecreate`, `buildDockerHealthCheck`, `buildDockerResources` and `parseMemoryString` of
-- internal/controller/dockercontainer/reconciler.go. `sort` is `sort.Strings`.
use k8s_docker_operator.Prelude.{
  ℕ, Bool, true, false, not, ◌&&◌, ◌||◌, String, Option, none, List, [], ◌∷◌, str_eq, if◌then◌else◌,
}
use k8s_docker_operator.Prelude.Int.{ℤ, pos, ◌*ℤ◌, int64, eqb_ℤ, ltb_ℤ}
use k8s_docker_operator.Prelude.Text.{codes, trim_space}
use k8s_docker_operator.Exec.{given}
use k8s_docker_operator.Api.Container.{DockerContainerSpec, HealthCheckConfig, ResourceRequirements}
use k8s_docker_operator.Outside.Docker.{Config, HostConfig, HealthConfig, Inspected, Resources}
use k8s_docker_operator.Outside.Calls.{Libraries}
use k8s_docker_operator.JobController.Memory.{
  is_digit, number_of, in_range, is_empty, is_minus, unsigned, split_unit,
}

-- The inner loop over `inspected.Config.Env`.
unfoldable pub contains : String → List String → Bool
contains expected [] = false
contains expected (actual ∷ rest) = str_eq actual expected || contains expected rest

unfoldable pub all_found : List String → List String → Bool
all_found actuals [] = true
all_found actuals (expected ∷ rest) = contains expected actuals && all_found actuals rest

-- slices.Equal
unfoldable pub same_strings : List String → List String → Bool
same_strings [] [] = true
same_strings [] (b ∷ bs) = false
same_strings (a ∷ xs) [] = false
same_strings (a ∷ xs) (b ∷ bs) = str_eq a b && same_strings xs bs

abbrev pub is_none_given : List String → Bool
is_none_given [] = true
is_none_given (a ∷ xs) = false

unfoldable pub all_digits : List ℕ → Bool
all_digits [] = true
all_digits (c ∷ s) = is_digit c && all_digits s

-- strconv.ParseInt in base 10 for 64 bits.
unfoldable pub parse_int : List ℕ → Option ℤ
parse_int s =
    let digits = unsigned s in
    if is_empty digits || not (all_digits digits)
    then none
    else in_range (is_minus s) (number_of 0 digits)

module _ {F : Type 0} (libs : Libraries F) where
  unfoldable pub parse_memory_string : List ℕ → ℤ
  parse_memory_string text =
      let s = trim_space (libs.lower_codes text) in
      let parsed = split_unit s in
      let value = given (parse_int parsed.1) (λ val. int64 (val *ℤ parsed.0)) (pos 0) in
      if is_empty s then pos 0 else value

  unfoldable pub build_docker_resources : ResourceRequirements → Resources
  build_docker_resources r = record {
    nano_cpus =
        if str_eq r.cpu_limit ""
        then pos 0
        else given (libs.parse_float r.cpu_limit) libs.nano_of (pos 0);
    memory = if str_eq r.memory_limit "" then pos 0 else parse_memory_string (codes r.memory_limit);
  }

  abbrev pub duration_or_zero : String → ℤ
  duration_or_zero text =
      if str_eq text "" then pos 0 else given (libs.parse_duration text) (λ d. d) (pos 0)

  unfoldable pub build_docker_health_check : HealthCheckConfig → HealthConfig
  build_docker_health_check hc = record {
    test = hc.test;
    interval = duration_or_zero hc.interval;
    timeout = duration_or_zero hc.timeout;
    retries = if ltb_ℤ (pos 0) hc.retries then hc.retries else pos 0;
  }

  module _ (sort : List String → List String) where
    -- The tests of `needsRecreate`, in their order.
    unfoldable pub image_differs : Config → DockerContainerSpec → Bool
    image_differs config spec = not (str_eq config.image spec.image)

    unfoldable pub command_differs : Config → DockerContainerSpec → Bool
    command_differs config spec =
        not (is_none_given spec.command) && not (same_strings config.cmd spec.command)

    unfoldable pub env_differs : Config → DockerContainerSpec → Bool
    env_differs config spec =
        not (is_none_given spec.env) && not (all_found config.env (sort spec.env))

    unfoldable pub policy_differs : HostConfig → DockerContainerSpec → Bool
    policy_differs host spec =
        not (str_eq spec.restart_policy "")
        && not (str_eq (libs.to_lower host.restart_policy) (libs.to_lower spec.restart_policy))

    unfoldable pub resources_differ : HostConfig → DockerContainerSpec → Bool
    resources_differ host spec =
        given spec.resources
          (λ r.
            let desired = build_docker_resources r in
            not (eqb_ℤ desired.nano_cpus host.resources.nano_cpus)
            || not (eqb_ℤ desired.memory host.resources.memory))
          false

    unfoldable pub needs_recreate : Inspected → DockerContainerSpec → Bool
    needs_recreate inspected spec =
        given inspected.config
          (λ config.
            image_differs config spec
            || command_differs config spec
            || env_differs config spec
            || given inspected.host_config
                (λ host. policy_differs host spec || resources_differ host spec) false)
          false
