-- ===== src/Api/Meta.antt =====
-- The Kubernetes metadata that the program reads, and Secrets. A time is a number of nanoseconds.
use k8s_docker_operator.Prelude.{String, Option, List}
use k8s_docker_operator.Prelude.Int.{ℤ}

pub record Key : Type 0 where
  pub namespace : String
  pub name : String

-- `labels` is `none` for a nil map. `controller` is the UID of the controlling owner.
pub record Meta : Type 0 where
  pub name : String
  pub namespace : String
  pub uid : String
  pub labels : Option (List (String × String))
  pub finalizers : List String
  pub creation_timestamp : ℤ
  pub deletion_timestamp : Option ℤ
  pub controller : Option String

-- The entries of `data` in the order in which the program's loop over the map meets them.
pub record Secret : Type 0 where
  pub meta : Meta
  pub data_entries : List (String × String)
