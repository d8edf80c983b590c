-- ===== src/Startup.antt =====
-- The functions main of cmd/operator, cmd/webhook, cmd/sidecar and cmd/dns.
pub mod Stages
pub mod Order
pub mod Cleaning
use kube_overlay_operator.Base.{
  ℕ, String, Bool, true, false, Option, none, some, List, [], ◌∷◌, if◌then◌else◌,
}
use kube_overlay_operator.Base.Dict.{get_or}
use kube_overlay_operator.Base.Outcome.{Act, pure, fail, panic, ◌>>=◌, ◌>>◌}
use kube_overlay_operator.External.Netlink.{Netlink}
use kube_overlay_operator.External.Runtime.{
  Runtime, Host, called, Call, add_to_scheme, get_config, new_manager, manage, register,
  add_healthz_check, add_readyz_check, new_kmod, load_module, serve_dns, start,
  overlay_network_reconciler, pod_reconciler, namespace_reconciler, tunnel_reconciler,
  dns_reconciler, pod_injector, overlay_network_validator,
}
use kube_overlay_operator.Resolver.{Resolver, new_resolver}
use kube_overlay_operator.Tunneler.{setup_with_manager, TunnelReconciler}
use kube_overlay_operator.Tunneler.Shutdown.{shutdown}

module _ {K : Type 0} (rt : Runtime K) where
  -- A program: it returns, or it exits with a code.
  abbrev pub Program : Type 0 → Type 0
  Program A = Act (Host K) ℕ A

  -- A call, and `os.Exit(1)` if it returns an error.
  abbrev pub call : Call → Program (Unit {0})
  call c w = if rt.succeeds w.calls c then pure tt (called rt c w) else fail 1 (called rt c w)

  -- A call that returns no error, or one that is not waited for.
  abbrev pub note : Call → Program (Unit {0})
  note c w = pure tt (called rt c w)

  -- utilruntime.Must
  abbrev pub must : Call → Program (Unit {0})
  must c w = if rt.succeeds w.calls c then pure tt (called rt c w) else panic (called rt c w)

  -- The function init of each program.
  unfoldable pub init_schemes : Program (Unit {0})
  init_schemes = do
    must (add_to_scheme "k8s.io/client-go")
    must (add_to_scheme "network.deinstapel.de/v1alpha1")

  -- os.LookupEnv, and `os.Exit(1)` if the variable is not set.
  abbrev pub require_env : String → Program String
  require_env name = elim (rt.lookup_env name) [ none ↦ fail 1 | some v ↦ pure v ]

  -- os.Getenv
  abbrev pub getenv : String → String
  getenv name = get_or (rt.lookup_env name) ""

  abbrev pub metrics_addr : String → String
  metrics_addr = rt.string_flag "metrics-bind-address"

  abbrev pub probe_addr : String → String
  probe_addr = rt.string_flag "health-probe-bind-address"

  abbrev pub add_checks : Program (Unit {0})
  add_checks = do call (add_healthz_check "healthz"); call (add_readyz_check "readyz")

  unfoldable pub operator_main : Program (Unit {0})
  operator_main = do
    call get_config
    call (
        new_manager (record {
          metrics_bind_address = metrics_addr ":8080";
          port = 9443;
          health_probe_bind_address = probe_addr ":8081";
          leader_election = rt.bool_flag "leader-elect" false;
          leader_election_id = "9ebb8151.deinstapel.de";
          namespace = "";
        }))
    call (manage overlay_network_reconciler)
    call (manage pod_reconciler)
    call (manage namespace_reconciler)
    add_checks
    call start

  unfoldable pub webhook_main : Program (Unit {0})
  webhook_main = do
    _ ← require_env "SIDECAR_IMAGE"
    call get_config
    call (
        new_manager (record {
          metrics_bind_address = metrics_addr ":8080";
          port = 9443;
          health_probe_bind_address = probe_addr ":8081";
          leader_election = false;
          leader_election_id = "";
          namespace = "";
        }))
    note (register "/mutate-v1-pod" pod_injector)
    note (
        register "/validate-network-deinstapel-de-v1alpha1-overlaynetwork"
          overlay_network_validator)
    add_checks
    call start

  -- The manager of the sidecar and of the resolver, for one namespace.
  abbrev pub namespaced_manager : String → Call
  namespaced_manager namespace = new_manager (record {
    metrics_bind_address = metrics_addr ":12001";
    port = 12002;
    health_probe_bind_address = probe_addr ":12000";
    leader_election = false;
    leader_election_id = "";
    namespace = namespace;
  })

  unfoldable pub dns_main : Program (Unit {0})
  dns_main = do
    namespace ← require_env "POD_NAMESPACE"
    zone ← require_env "ROOT_ZONE"
    call get_config
    call (namespaced_manager namespace)
    let reconciler = new_resolver namespace zone (getenv "CLUSTER_DOMAIN")
    call (manage (dns_reconciler reconciler))
    add_checks
    note (serve_dns reconciler)
    call start

  -- SetupWithManager of the tunnel controller.
  abbrev pub setup_tunneler : Program (Unit {0})
  setup_tunneler = elim (setup_with_manager (rt.lookup_env "POD_NAME")) [
    | none ↦ fail 1
    | some reconciler ↦ call (manage (tunnel_reconciler reconciler))
  ]

  -- main of the sidecar up to the return of Start.
  unfoldable pub sidecar_run : Program (Unit {0})
  sidecar_run = do
    namespace ← require_env "POD_NAMESPACE"
    call get_config
    call (namespaced_manager namespace)
    call new_kmod
    call (load_module "fou")
    call (load_module "ipip")
    setup_tunneler
    add_checks
    call start

module _ (nl : Netlink) (rt : Runtime nl.Kernel) where
  -- The kernel after Shutdown.
  abbrev pub shut_down : Program rt (Unit {0})
  shut_down w = pure tt (record w { kernel = shutdown nl w.kernel })

  unfoldable pub sidecar_main : Program rt (Unit {0})
  sidecar_main = do sidecar_run rt; shut_down
