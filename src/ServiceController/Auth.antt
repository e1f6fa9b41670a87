-- ===== src/ServiceController/Auth.antt =====
-- `ensureTunnelAuthSecret` of internal/controller/dockerservice/reconciler.go.
use k8s_docker_operator.Prelude.{
  ℕ, zero, suc, ◌/◌, ◌%◌, String, none, List, [], ◌∷◌, get_elem?, if◌then◌else◌,
}
use k8s_docker_operator.Prelude.Int.{pos}
use k8s_docker_operator.Prelude.Text.{◌<>◌, find_key}
use k8s_docker_operator.Exec.{Result, ok, err, Exec, pure, raise, lift, handle, given, ◌>>=◌, ◌>>◌}
use k8s_docker_operator.Api.Meta.{Key, Meta, Secret}
use k8s_docker_operator.Api.Service.{DockerService}
use k8s_docker_operator.Outside.Calls.{Env, World, Cluster, ask, act, secret_created}
use k8s_docker_operator.DeploymentController.Scaling.{letters_of}

abbrev pub hex_digits : List String
hex_digits = letters_of "0123456789abcdef"

abbrev pub hex_digit : ℕ → String
hex_digit n = given (get_elem? hex_digits n) (λ d. d) ""

-- hex.EncodeToString
unfoldable pub hex_encode : List ℕ → String
hex_encode [] = ""
hex_encode (b ∷ bs) = hex_digit (b / 16 % 16) <> hex_digit (b % 16) <> hex_encode bs

unfoldable pub zeros : ℕ → List ℕ
zeros zero = []
zeros (suc n) = 0 ∷ zeros n

-- `rand.Read(b)` whose error is ignored: the buffer keeps its zeros.
abbrev pub bytes_of : ℕ → Result (List ℕ) → List ℕ
bytes_of n (ok bytes) = bytes
bytes_of n (err e) = zeros n

abbrev pub secret_name : DockerService → String
secret_name ds = ds.meta.name <> "-tunnel-auth"

abbrev pub bare_meta : Key → Meta
bare_meta key = record {
  name = key.name;
  namespace = key.namespace;
  uid = "";
  labels = none;
  finalizers = [];
  creation_timestamp = pos 0;
  deletion_timestamp = none;
  controller = none;
}

abbrev pub secret_key : DockerService → Key
secret_key ds = record { namespace = ds.meta.namespace; name = secret_name ds }

abbrev pub token_secret : Meta → String → Secret
token_secret meta token = record { meta = meta; data_entries = ("token", token) ∷ [] }

module _ {W F : Type 0} (env : Env W F) (cluster : Cluster W) where
  unfoldable pub random_token : ℕ → Exec (World W) String
  random_token n w =
      let (r, o) = cluster.rand_read n w.outside in
      (ok (hex_encode (bytes_of n r)), record w { outside = o })

  -- No token is stored.
  unfoldable pub create_token : DockerService → Exec (World W) String
  create_token ds = do
    token ← random_token 16
    meta ← lift (env.libs.set_controller ds.meta (bare_meta (secret_key ds)))
    act (secret_created (token_secret meta token)) (env.secrets.create (token_secret meta token))
    pure token

  unfoldable pub ensure_tunnel_auth_secret : DockerService → Exec (World W) String
  ensure_tunnel_auth_secret ds =
      handle (ask (env.secrets.get (secret_key ds)))
        (λ secret. given (find_key "token" secret.data_entries) pure (create_token ds))
        (λ e. if e.not_found then create_token ds else raise e)
