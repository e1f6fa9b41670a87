-- ===== src/Common/Tls.antt =====
-- internal/controller/common/utils.go. The certificate pool and the key pair are the library's.
use k8s_docker_operator.Prelude.{String, none, some, if◌then◌else◌}
use k8s_docker_operator.Prelude.Text.{find_key}
use k8s_docker_operator.Exec.{Result, ok, err, plain}
use k8s_docker_operator.Api.Meta.{Secret}
use k8s_docker_operator.Outside.Docker.{TlsConfig}
use k8s_docker_operator.Outside.Calls.{Libraries}

abbrev pub entry : Secret → String → String → Result String
entry secret key missing = elim (find_key key secret.data_entries) [
  | none ↦ err (plain missing)
  | some v ↦ ok v
]

infixl 5 ◌>>=◌
abbrev ◌>>=◌ : {A B : Type 0} → Result A → (A → Result B) → Result B
ok a >>= rest = rest a
err e >>= rest = err e

module _ {F : Type 0} (libs : Libraries F) where
  unfoldable pub get_tls_config : Secret → Result TlsConfig
  unfolding find_key
  get_tls_config secret = do
    ca ← entry secret "ca.pem" "secret missing 'ca.pem'"
    cert_pem ← entry secret "cert.pem" "secret missing 'cert.pem'"
    key_pem ← entry secret "key.pem" "secret missing 'key.pem'"
    let loaded = do
      cert ← libs.key_pair cert_pem key_pem
      ok (record { root_cas = ca; certificate = cert })
    if libs.append_certs ca then loaded else err (plain "failed to append CA certificate")
