-- ===== src/Tunnel/Gateway.antt =====
-- internal/tunnel/gateway.go: the `Director` of the gateway. The parsing and the printing of URLs and
-- queries are the library's; a query is the list of its keys and values, of which `Get` takes the first.
use k8s_docker_operator.Prelude.{String, Option, some, List, ◌||◌, str_eq, if◌then◌else◌}
use k8s_docker_operator.Prelude.Text.{◌<>◌, find_key, store_key}
use k8s_docker_operator.Exec.{given}

pub record Url : Type 0 where
  pub scheme : String
  pub host : String
  pub path : String
  pub raw_query : String

pub record Urls : Type 0 where
  pub parse : String → Option Url
  pub query : String → List (String × String)
  pub encode : List (String × String) → String

pub record Request : Type 0 where
  pub url : Url
  pub host : String

-- `Get` of a query: the empty text for a key that is missing.
unfoldable pub get_value : String → List (String × String) → String
get_value key q = given (find_key key q) (λ v. v) ""

abbrev pub plain_scheme : String → String
plain_scheme scheme =
    if str_eq scheme "ws" then "http" else if str_eq scheme "wss" then "https" else scheme

module _ (urls : Urls) where
  -- `url.Parse(target)`, or the same behind `http://` where that gives no scheme or no host.
  unfoldable pub target_url : String → Option Url
  target_url target =
      let again = urls.parse ("http://" <> target) in
      given (urls.parse target)
        (λ u. if str_eq u.scheme "" || str_eq u.host "" then again else some u) again

  abbrev pub forwarded_query : Request → Url → List (String × String)
  forwarded_query req target =
      let q = urls.query target.raw_query in
      let token = get_value "token" (urls.query req.url.raw_query) in
      if str_eq token "" then q else store_key "token" token q

  abbrev pub forwarded : Request → Url → Request
  forwarded req target = record {
    url = record {
      scheme = plain_scheme target.scheme;
      host = target.host;
      path = if str_eq target.path "" then req.url.path else target.path;
      raw_query = urls.encode (forwarded_query req target);
    };
    host = target.host;
  }

  -- A request without a target, or with one that is no URL, is left as it is.
  unfoldable pub direct : Request → Request
  direct req =
      let target = get_value "target" (urls.query req.url.raw_query) in
      if str_eq target "" then req else given (target_url target) (forwarded req) req
