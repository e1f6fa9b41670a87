-- ===== src/ContainerController/Secrets.antt =====
-- The methods of dockercontainer/reconciler.go that read Secrets: they have the text of those of
-- dockerjob/reconciler.go, which are Common.Secrets, and so have the loops that call them.
use k8s_docker_operator.Prelude.{String}
use k8s_docker_operator.Exec.{Exec}
use k8s_docker_operator.Api.Container.{SecretVolume}
use k8s_docker_operator.Outside.Docker.{Client, AuthConfig}
use k8s_docker_operator.Outside.Calls.{Env, World}
use k8s_docker_operator.Common.Secrets

module _ {W F : Type 0} (env : Env W F) where
  abbrev get_secret_value : String → String → String → Exec (World W) String
  get_secret_value = Secrets.get_secret_value env

  abbrev upload_secret_to_container :
      Client → String → SecretVolume → String → Exec (World W) (Unit {0})
  upload_secret_to_container = Secrets.upload_secret_to_container env

  abbrev pub get_auth_config : String → String → Exec (World W) AuthConfig
  get_auth_config = Secrets.get_auth_config env
