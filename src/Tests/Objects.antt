-- ===== src/Tests/Objects.antt =====
-- The objects, the client and the libraries of the tests.
use mathlib.Core.List.Perm
use kube_overlay_operator.Base.{
  ℕ, String, Bool, true, false, refl, Option, none, some, List, [], ◌∷◌, map, if◌then◌else◌,
}
use kube_overlay_operator.Base.Dict.{Dict}
use kube_overlay_operator.Base.Int.{pos}
use kube_overlay_operator.Base.Strings.{string_dec}
use kube_overlay_operator.Base.Result.{ok, err}
use kube_overlay_operator.Api.{
  OverlayNetwork, OverlayNetworkSpec, OverlayNetworkStatus, OverlayNetworkIpAllocation, Pod,
  ServiceAccount, RoleBinding,
}
use kube_overlay_operator.External.Client.{Client, Write, create_secret, not_found, other_error}
use kube_overlay_operator.PodController.Deletion.{IsMapToSlice}
use kube_overlay_operator.PodController.WellFormed.{IsWellFormed}
use kube_overlay_operator.Tests.Text.{mapped, text}

-- A text that the search prints for 10.0.0.n.
abbrev pub address : ℕ → String
address n = text.ip_string (mapped (10 ∷ 0 ∷ 0 ∷ n ∷ []))

abbrev pub old_allocation : OverlayNetworkIpAllocation
old_allocation = record {
  pod_name = "old";
  pod_ip = "192.168.0.7";
  ip = address 1;
  extra_networks = [];
}

abbrev pub lan_spec : OverlayNetworkSpec
lan_spec = record {
  allocatable_cidr = "10.0.0.0/30";
  port = pos 5555;
  routable_cidrs = "10.0.0.0/30" ∷ [];
  optional_routes = [];
  service_names = "web" ∷ [];
}

abbrev pub lan_status : OverlayNetworkStatus
lan_status = record {
  allocations = old_allocation ∷ [];
  routers = old_allocation ∷ [];
  optional_routers = [];
}

-- A network whose deletion timestamp is given.
abbrev pub lan_since : Option String → OverlayNetwork
lan_since time = record {
  meta = record {
    name = "lan";
    namespace = "default";
    labels = [];
    annotations = [];
    finalizers = [];
    deletion_timestamp = time;
  };
  spec = lan_spec;
  status = lan_status;
}

abbrev pub lan : OverlayNetwork
lan = lan_since none

-- A pod of the network "lan" that has the finalizer of the operator.
abbrev pub pod_since : String → Option String → Pod
pod_since name time = record {
  meta = record {
    name = name;
    namespace = "default";
    labels = ("network.deinstapel.de/inject-sidecar", "true") ∷ [];
    annotations = ("network.deinstapel.de/member-of", "lan") ∷ [];
    finalizers = "network.deinstapel.de/ipam" ∷ [];
    deletion_timestamp = time;
  };
  init_containers = [];
  containers = [];
  volumes = [];
  pod_ip = "192.168.0.7";
}

abbrev pub web_pod : Pod
web_pod = pod_since "web-0" none

abbrev pub account : ServiceAccount
account = record { name = "overlay-network-sidecar"; namespace = "default"; secrets = [] }

abbrev pub role : RoleBinding
role = record {
  name = "overlay-network-sidecar";
  namespace = "default";
  subjects = [];
  role_ref = record { api_group = ""; kind = ""; name = "" };
}

abbrev pub is_secret_write : Write → Bool
is_secret_write (create_secret s) = true
is_secret_write _ = false

-- A server with the network, the pod and the account, and without the secret. It accepts all
-- writes.
abbrev pub server : Client
server = record {
  get_pod = λ log ns name. ok web_pod;
  get_network = λ log ns name. ok lan;
  get_service_account = λ log ns name. ok account;
  get_secret = λ log ns name. err not_found;
  get_role_binding = λ log ns name. ok role;
  list_networks = λ log ns. ok (lan ∷ []);
  answer = λ log w. none;
}

-- A server without any object. It refuses to create secrets.
abbrev pub bare_server : Client
bare_server = record {
  get_pod = λ log ns name. err not_found;
  get_network = λ log ns name. err not_found;
  get_service_account = λ log ns name. err not_found;
  get_secret = λ log ns name. err not_found;
  get_role_binding = λ log ns name. err not_found;
  list_networks = λ log ns. ok [];
  answer = λ log w. if is_secret_write w then some (other_error "no namespace") else none;
}

-- MapToSlice in the order of the association list.
abbrev pub in_order : Dict Bool → (String → Bool → Bool) → List Bool
in_order m f = map (λ (e : String × Bool). f e.0 e.1) m

pub in_order-IsMapToSlice : IsMapToSlice in_order
in_order-IsMapToSlice m f = Perm.rfl

pub lan-IsWellFormed : IsWellFormed lan_status
unfolding string_dec
lan-IsWellFormed = record {
  one_per_pod = (refl, tt);
  one_per_ip = (refl, tt);
  routers_known = ((refl, tt), (refl, tt));
  optional_known = tt;
}
