-- ===== src/ContainerController/Ports.antt =====
-- The ports that a container is created with.
use k8s_docker_operator.Prelude.{
  ◌≡◌, refl, ap, ◌∙◌, String, Option, none, some, List, [], ◌∷◌, map, Bool-cases, inl, inr, str_eq,
  eq_iff, Bool, true, false, arith, if◌then◌else◌,
}
use k8s_docker_operator.Prelude.Text.{split_string}
use k8s_docker_operator.Exec.{given}
use k8s_docker_operator.Outside.Docker.{PortBinding}
use k8s_docker_operator.Outside.Calls.{Libraries}
use k8s_docker_operator.ContainerController.Create.{
  put_binding, expose, two_parts, Published, publish, publish_port, publish_ports,
}

abbrev port_of : PortBinding → String
port_of b = b.container_port

-- The exposed ports are the ports that are bound.
abbrev pub IsPublished : Published → Type 0
IsPublished p = map port_of p.bindings ≡ p.exposed

put_binding-expose :
    (b : PortBinding) (bs : List PortBinding)
    → map port_of (put_binding b bs) ≡ expose b.container_port (map port_of bs)
unfolding put_binding expose
put_binding-expose b [] = refl
put_binding-expose b (x ∷ xs) = elim (Bool-cases (str_eq x.container_port b.container_port)) [
  | inl same ↦ rw same refl
  | inr other ↦ rw other (ap (λ l. x.container_port ∷ l) (put_binding-expose b xs))
]

-- The host port that a container port is bound to.
abbrev pub host_port_of : String → List PortBinding → Option String
host_port_of port [] = none
host_port_of port (b ∷ bs) =
    if str_eq b.container_port port then some b.host_port else host_port_of port bs

host_port_of-put_binding :
    (b : PortBinding) (bs : List PortBinding) (port : String)
    → host_port_of port (put_binding b bs)
      ≡ (if str_eq b.container_port port then some b.host_port else host_port_of port bs)
unfolding put_binding
host_port_of-put_binding b [] port = refl
host_port_of-put_binding b (x ∷ xs) port =
    elim (Bool-cases (str_eq x.container_port b.container_port)) [
      | inl same ↦
          let equal = (eq_iff x.container_port b.container_port).0 same in
          rw (same, equal) (ground arith)
      | inr other ↦ rw (other, host_port_of-put_binding b xs port) (apart x b xs other)
    ]
  where
    apart :
        (x b : PortBinding) (xs : List PortBinding)
        → str_eq x.container_port b.container_port ≡ false
        → (if str_eq x.container_port port
            then some x.host_port
            else (if str_eq b.container_port port then some b.host_port else host_port_of port xs))
          ≡ (if str_eq b.container_port port
              then some b.host_port
              else (if str_eq x.container_port port
                  then some x.host_port
                  else host_port_of port xs))
    apart x b xs other = ground (
      arith,
      eq_iff x.container_port port,
      eq_iff b.container_port port,
      eq_iff x.container_port b.container_port,
    )

or_none : (o : Option String) → given o (λ h. some h) none ≡ o
unfolding given
or_none none = refl
or_none (some h) = refl

module _ {F : Type 0} (libs : Libraries F) where
  -- The parts of a mapping, as they change what is published.
  apply_parts : Option (String × String) → Published → Published
  apply_parts o p = given o (λ ps. given (libs.new_port ps.1) (λ q. publish q ps.0 p) p) p

  apply_port-IsPublished :
      (host : String) (o : Option String) (p : Published)
      → IsPublished p
      → IsPublished (given o (λ q. publish q host p) p)
  unfolding given
  apply_port-IsPublished host none p h = h
  apply_port-IsPublished host (some q) p h =
      put_binding-expose (record { container_port = q; host_ip = "0.0.0.0"; host_port = host })
        p.bindings
      ∙ ap (expose q) h

  apply_parts-IsPublished :
      (o : Option (String × String)) (p : Published) → IsPublished p → IsPublished (apply_parts o p)
  unfolding apply_parts given
  apply_parts-IsPublished none p h = h
  apply_parts-IsPublished (some ps) p h = apply_port-IsPublished ps.0 (libs.new_port ps.1) p h

  publish_port-IsPublished :
      (text : String) (p : Published) → IsPublished p → IsPublished (publish_port libs text p)
  unfolding publish_port apply_parts
  publish_port-IsPublished text p h =
      apply_parts-IsPublished (two_parts (split_string ":" text)) p h

  publish_ports-keeps :
      (texts : List String) (p : Published)
      → IsPublished p
      → IsPublished (publish_ports libs texts p)
  unfolding publish_ports
  publish_ports-keeps [] p h = h
  publish_ports-keeps (text ∷ texts) p h =
      publish_ports-keeps texts (publish_port libs text p) (publish_port-IsPublished text p h)

  -- The host port that a text asks for a container port: `none` for a text that has not two parts, whose second part
  -- is no port, or is another.
  abbrev pub asked_by : String → String → Option String
  asked_by port text =
      given (two_parts (split_string ":" text))
        (λ parts.
          given (libs.new_port parts.1) (λ q. if str_eq q port then some parts.0 else none) none)
        none

  -- The last of the texts that ask a host port for the container port.
  abbrev pub last_asked : String → List String → Option String
  last_asked port [] = none
  last_asked port (text ∷ texts) =
      given (last_asked port texts) (λ host. some host) (asked_by port text)

  host_port_of-publish_port :
      (port text : String) (p : Published)
      → host_port_of port (publish_port libs text p).bindings
        ≡ given (asked_by port text) (λ host. some host) (host_port_of port p.bindings)
  unfolding publish_port given
  host_port_of-publish_port port text p = by_parts (two_parts (split_string ":" text))
    where
      either :
          (same : Bool) (host : String) (before : Option String)
          → (if same then some host else before)
            ≡ given (if same then some host else none) (λ h. some h) before
      either true host before = refl
      either false host before = refl

      by_port :
          (host : String) (o : Option String)
          → host_port_of port (given o (λ q. publish q host p) p).bindings
            ≡ given
                (given o (λ q. if str_eq q port then some host else none) none)
                (λ h. some h)
                (host_port_of port p.bindings)
      by_port host none = refl
      by_port host (some q) =
          host_port_of-put_binding
            (record { container_port = q; host_ip = "0.0.0.0"; host_port = host }) p.bindings port
          ∙ either (str_eq q port) host (host_port_of port p.bindings)

      by_parts :
          (o : Option (String × String))
          → host_port_of port
              (given o (λ ps. given (libs.new_port ps.1) (λ q. publish q ps.0 p) p) p).bindings
            ≡ given
                (given o
                  (λ ps.
                    given
                      (libs.new_port ps.1)
                      (λ q. if str_eq q port then some ps.0 else none)
                      none)
                  none)
                (λ h. some h)
                (host_port_of port p.bindings)
      by_parts none = refl
      by_parts (some ps) = by_port ps.0 (libs.new_port ps.1)

  host_port_of-publish_ports :
      (port : String) (texts : List String) (p : Published)
      → host_port_of port (publish_ports libs texts p).bindings
        ≡ given (last_asked port texts) (λ host. some host) (host_port_of port p.bindings)
  unfolding publish_ports given
  host_port_of-publish_ports port [] p = refl
  host_port_of-publish_ports port (text ∷ texts) p =
      host_port_of-publish_ports port texts (publish_port libs text p)
      ∙ ap (given (last_asked port texts) (λ host. some host))
          (host_port_of-publish_port port text p)
      ∙ later_first (last_asked port texts) (asked_by port text) (host_port_of port p.bindings)
    where
      later_first :
          (later now before : Option String)
          → given later (λ h. some h) (given now (λ h. some h) before)
            ≡ given (given later (λ h. some h) now) (λ h. some h) before
      later_first none now before = refl
      later_first (some h) now before = refl

  -- From nothing published, whatever the texts are, be there none or be some no ports: the ports exposed are
  -- those bound, in order, and every container port is bound to the host port that the last of the texts that
  -- name it asks, and is not bound if none does.
  pub publish_ports-IsPublished :
      (texts : List String) (port : String)
      → IsPublished (publish_ports libs texts (record { bindings = []; exposed = [] }))
        × (host_port_of port
              (publish_ports libs texts (record { bindings = []; exposed = [] })).bindings
            ≡ last_asked port texts)
  publish_ports-IsPublished texts port = (
    publish_ports-keeps texts (record { bindings = []; exposed = [] }) refl,
    host_port_of-publish_ports port texts (record { bindings = []; exposed = [] })
        ∙ or_none (last_asked port texts),
  )
