-- ===== src/External/Runtime.antt =====
-- What the functions main use of the packages os and flag, of controller-runtime and of kmod. The
-- calls that can fail, and those that run other code, are data; what they answer is a parameter, and
-- may depend on all calls before. `K` is what calls change besides.
use kube_overlay_operator.Base.{ℕ, String, Bool, Option, List, [], ◌∷◌, ◌++◌}
use kube_overlay_operator.Resolver.{Resolver}
use kube_overlay_operator.Tunneler.{TunnelReconciler}

-- The fields of ctrl.Options that the code sets; a field that it does not set is zero.
pub record ManagerOptions : Type 0 where
  pub metrics_bind_address : String
  pub port : ℕ
  pub health_probe_bind_address : String
  pub leader_election : Bool
  pub leader_election_id : String
  pub namespace : String

-- The reconcilers that are registered with the manager.
pub data Controller : Type 0 where
  overlay_network_reconciler pod_reconciler namespace_reconciler : Controller
  tunnel_reconciler : TunnelReconciler → Controller
  dns_reconciler : Resolver → Controller

pub data Handler : Type 0 where
  pod_injector overlay_network_validator : Handler

pub data Call : Type 0 where
  -- AddToScheme, of the named types.
  add_to_scheme : String → Call
  get_config : Call
  new_manager : ManagerOptions → Call
  -- NewControllerManagedBy(mgr).For(...).Complete(r)
  manage : Controller → Call
  register : String → Handler → Call
  add_healthz_check add_readyz_check : String → Call
  new_kmod : Call
  load_module : String → Call
  serve_dns : Resolver → Call
  -- Start, which returns when the manager has stopped.
  start : Call

-- The flags with their defaults, of a command line that parses.
pub record Runtime (K : Type 0) : Type 0 where
  pub string_flag : String → String → String
  pub bool_flag : String → Bool → Bool
  pub lookup_env : String → Option String
  pub succeeds : List Call → Call → Bool
  pub effect : List Call → Call → K → K

-- The calls so far, and what they left.
pub record Host (K : Type 0) : Type 0 where
  pub calls : List Call
  pub kernel : K

-- The host after a call.
abbrev pub called : {K : Type 0} → Runtime K → Call → Host K → Host K
called rt c w = record { calls = w.calls ++ c ∷ []; kernel = rt.effect w.calls c w.kernel }
