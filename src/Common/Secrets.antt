-- ===== src/Common/Secrets.antt =====
-- Secrets as the controllers read them: one value, registry credentials, and the upload of a whole
-- Secret into a container (dockerjob/reconciler.go, and the same in dockercontainer/reconciler.go).
use k8s_docker_operator.Prelude.{String, none, some, map, str_eq, if◌then◌else◌}
use k8s_docker_operator.Prelude.Int.{pos}
use k8s_docker_operator.Prelude.Text.{◌<>◌, find_key}
use k8s_docker_operator.Exec.{Result, ok, err, Exec, plain, pure, raise, lift, ◌>>=◌}
use k8s_docker_operator.Api.Meta.{Secret}
use k8s_docker_operator.Api.Container.{SecretVolume}
use k8s_docker_operator.Outside.Docker.{Client, TarEntry, AuthConfig}
use k8s_docker_operator.Outside.Calls.{Env, World, ask, act, container_copied}
use Prim.Native.String.{len}

abbrev pub value_of : String → String → Secret → Result String
value_of name key secret = elim (find_key key secret.data_entries) [
  | none ↦ err (plain ("key " <> key <> " not found in secret " <> name))
  | some v ↦ ok v
]

-- `string(secret.Data[key])`: a missing key reads as the empty text.
abbrev pub text_at : String → Secret → String
text_at key secret = elim (find_key key secret.data_entries) [ none ↦ "" | some v ↦ v ]

-- strings.TrimPrefix(path, "/")
abbrev pub relative : String → String
relative String.[] = ""
relative (String.◌∷◌ c s) = if str_eq (String.◌∷◌ c "") "/" then s else String.◌∷◌ c s

module _ {W F : Type 0} (env : Env W F) where
  unfoldable pub get_secret_value : String → String → String → Exec (World W) String
  unfolding find_key
  get_secret_value namespace name key = do
    secret ← ask (env.secrets.get (record { namespace = namespace; name = name }))
    lift (value_of name key secret)

  unfoldable pub get_auth_config : String → String → Exec (World W) AuthConfig
  unfolding find_key
  get_auth_config namespace secret_name = do
    secret ← ask (env.secrets.get (record { namespace = namespace; name = secret_name }))
    let username = text_at "username" secret
    let password = text_at "password" secret
    let server = text_at "server" secret
    if str_eq username ""
        then raise (plain "username not found in secret")
        else pure (record { username = username; password = password; server_address = server })

  abbrev pub tar_entry : String → String × String → TarEntry
  tar_entry rel_path (name, content) = record {
    name = env.libs.join_path rel_path name;
    mode = pos 0o444;
    size = pos (len content);
    content = content;
  }

  unfoldable pub upload_secret_to_container :
      Client → String → SecretVolume → String → Exec (World W) (Unit {0})
  upload_secret_to_container cli namespace sv container_id = do
    secret ← ask (env.secrets.get (record { namespace = namespace; name = sv.secret_name }))
    archive ← lift (env.libs.tar (map (tar_entry (relative sv.mount_path)) secret.data_entries))
    act (container_copied cli container_id archive) (env.docker.copy_to cli container_id archive)
