-- ===== src/Startup/Order.antt =====
-- The calls that each function main makes.
use kube_overlay_operator.Base.{String, false, ◌≡◌, refl, some, List, [], ◌∷◌}
use kube_overlay_operator.Base.Outcome.{continue, ◌>>◌}
use kube_overlay_operator.External.Runtime.{
  Runtime, Call, ManagerOptions, get_config, new_manager, manage, register, add_healthz_check,
  add_readyz_check, new_kmod, load_module, serve_dns, start, overlay_network_reconciler,
  pod_reconciler, namespace_reconciler, tunnel_reconciler, dns_reconciler, pod_injector,
  overlay_network_validator,
}
use kube_overlay_operator.Resolver.{new_resolver}
use kube_overlay_operator.Tunneler.{setup_with_manager, TunnelReconciler}
use kube_overlay_operator.Startup.{
  call, getenv, add_checks, operator_main, webhook_main, dns_main, setup_tunneler, sidecar_run,
}
use kube_overlay_operator.Startup.Stages.{Runs, call-Runs, note-Runs, then-Runs, require_env-Runs}

-- The end of each list of calls.
abbrev checked_start : List Call
checked_start = add_healthz_check "healthz" ∷ add_readyz_check "readyz" ∷ start ∷ []

module _ {K : Type 0} (rt : Runtime K) where
  -- The checks of health, and the start.
  end-Runs : Runs rt (add_checks rt >> call rt start) checked_start
  end-Runs =
      then-Runs rt
        (then-Runs rt (call-Runs rt (add_healthz_check "healthz") refl)
          (call-Runs rt (add_readyz_check "readyz") refl))
        (call-Runs rt start refl)

  abbrev operator_options : ManagerOptions
  operator_options = record {
    metrics_bind_address = rt.string_flag "metrics-bind-address" ":8080";
    port = 9443;
    health_probe_bind_address = rt.string_flag "health-probe-bind-address" ":8081";
    leader_election = rt.bool_flag "leader-elect" false;
    leader_election_id = "9ebb8151.deinstapel.de";
    namespace = "";
  }

  abbrev pub operator_plan : List Call
  operator_plan =
      get_config
      ∷ new_manager operator_options
      ∷ manage overlay_network_reconciler
      ∷ manage pod_reconciler
      ∷ manage namespace_reconciler
      ∷ checked_start

  operator_main-Runs : Runs rt (operator_main rt) operator_plan
  unfolding operator_main
  operator_main-Runs = then-Runs rt (call-Runs rt get_config refl) (
      then-Runs rt (call-Runs rt (new_manager operator_options) refl) (
        then-Runs rt (call-Runs rt (manage overlay_network_reconciler) refl) (
          then-Runs rt (call-Runs rt (manage pod_reconciler) refl)
            (then-Runs rt (call-Runs rt (manage namespace_reconciler) refl) end-Runs))))

  abbrev webhook_options : ManagerOptions
  webhook_options = record operator_options { leader_election = false; leader_election_id = "" }

  abbrev pub webhook_plan : List Call
  webhook_plan =
      get_config
      ∷ new_manager webhook_options
      ∷ register "/mutate-v1-pod" pod_injector
      ∷ register "/validate-network-deinstapel-de-v1alpha1-overlaynetwork" overlay_network_validator
      ∷ checked_start

  webhook_main-Runs :
      (image : String)
      → rt.lookup_env "SIDECAR_IMAGE" ≡ some image
      → Runs rt (webhook_main rt) webhook_plan
  unfolding webhook_main continue
  webhook_main-Runs image set = require_env-Runs rt "SIDECAR_IMAGE" _ set (
      then-Runs rt (call-Runs rt get_config refl) (
        then-Runs rt (call-Runs rt (new_manager webhook_options) refl) (
          then-Runs rt (note-Runs rt (register "/mutate-v1-pod" pod_injector) refl) (
            then-Runs rt
              (note-Runs rt
                (register "/validate-network-deinstapel-de-v1alpha1-overlaynetwork"
                  overlay_network_validator)
                refl)
              end-Runs))))

  abbrev namespaced_options : String → ManagerOptions
  namespaced_options namespace = record {
    metrics_bind_address = rt.string_flag "metrics-bind-address" ":12001";
    port = 12002;
    health_probe_bind_address = rt.string_flag "health-probe-bind-address" ":12000";
    leader_election = false;
    leader_election_id = "";
    namespace = namespace;
  }

  abbrev pub dns_plan : String → String → List Call
  dns_plan namespace zone =
      let resolver = new_resolver namespace zone (getenv rt "CLUSTER_DOMAIN") in
      get_config
      ∷ new_manager (namespaced_options namespace)
      ∷ manage (dns_reconciler resolver)
      ∷ add_healthz_check "healthz"
      ∷ add_readyz_check "readyz"
      ∷ serve_dns resolver
      ∷ start
      ∷ []

  dns_main-Runs :
      (namespace zone : String)
      → rt.lookup_env "POD_NAMESPACE" ≡ some namespace
      → rt.lookup_env "ROOT_ZONE" ≡ some zone
      → Runs rt (dns_main rt) (dns_plan namespace zone)
  unfolding dns_main continue
  dns_main-Runs namespace zone set_namespace set_zone =
      let resolver = new_resolver namespace zone (getenv rt "CLUSTER_DOMAIN") in
      require_env-Runs rt "POD_NAMESPACE" _ set_namespace (
        require_env-Runs rt "ROOT_ZONE" _ set_zone (
          then-Runs rt (call-Runs rt get_config refl) (
            then-Runs rt (call-Runs rt (new_manager (namespaced_options namespace)) refl) (
              then-Runs rt (call-Runs rt (manage (dns_reconciler resolver)) refl) (
                then-Runs rt
                  (then-Runs rt (call-Runs rt (add_healthz_check "healthz") refl)
                    (call-Runs rt (add_readyz_check "readyz") refl))
                  (then-Runs rt (note-Runs rt (serve_dns resolver) refl)
                    (call-Runs rt start refl)))))))

  -- The tunnel controller at its beginning.
  abbrev tunneler_of : String → TunnelReconciler
  tunneler_of pod_name = record { my_pod_name = pod_name; network_to_name = []; network_index = 0 }

  abbrev pub sidecar_plan : String → String → List Call
  sidecar_plan namespace pod_name =
      get_config
      ∷ new_manager (namespaced_options namespace)
      ∷ new_kmod
      ∷ load_module "fou"
      ∷ load_module "ipip"
      ∷ manage (tunnel_reconciler (tunneler_of pod_name))
      ∷ checked_start

  setup_tunneler-Runs :
      (pod_name : String)
      → rt.lookup_env "POD_NAME" ≡ some pod_name
      → Runs rt (setup_tunneler rt) (manage (tunnel_reconciler (tunneler_of pod_name)) ∷ [])
  unfolding setup_with_manager
  setup_tunneler-Runs pod_name set =
      rw (set, setup_tunneler, setup_with_manager)
        (call-Runs rt (manage (tunnel_reconciler (tunneler_of pod_name))) refl)

  pub sidecar_run-Runs :
      (namespace pod_name : String)
      → rt.lookup_env "POD_NAMESPACE" ≡ some namespace
      → rt.lookup_env "POD_NAME" ≡ some pod_name
      → Runs rt (sidecar_run rt) (sidecar_plan namespace pod_name)
  unfolding sidecar_run setup_with_manager continue
  sidecar_run-Runs namespace pod_name set_namespace set_name =
      require_env-Runs rt "POD_NAMESPACE" _ set_namespace (
        then-Runs rt (call-Runs rt get_config refl) (
          then-Runs rt (call-Runs rt (new_manager (namespaced_options namespace)) refl) (
            then-Runs rt (call-Runs rt new_kmod refl) (
              then-Runs rt (call-Runs rt (load_module "fou") refl) (
                then-Runs rt (call-Runs rt (load_module "ipip") refl)
                  (then-Runs rt (setup_tunneler-Runs pod_name set_name) end-Runs))))))

  -- Where the variables that a program requires are set, each of the four programs (that of the
  -- sidecar up to the return of Start) makes its calls in this order: it returns when all have gone
  -- well, and otherwise exits with code 1 right after the first one that fails. The manager is
  -- started last, so never with a set-up missing.
  pub mains-Runs :
      (image namespace zone pod_name : String)
      → rt.lookup_env "SIDECAR_IMAGE" ≡ some image
      → rt.lookup_env "POD_NAMESPACE" ≡ some namespace
      → rt.lookup_env "ROOT_ZONE" ≡ some zone
      → rt.lookup_env "POD_NAME" ≡ some pod_name
      → Runs rt (operator_main rt) operator_plan
        × Runs rt (webhook_main rt) webhook_plan
        × Runs rt (dns_main rt) (dns_plan namespace zone)
        × Runs rt (sidecar_run rt) (sidecar_plan namespace pod_name)
  mains-Runs image namespace zone pod_name set_image set_namespace set_zone set_name = (
    operator_main-Runs,
    webhook_main-Runs image set_image,
    dns_main-Runs namespace zone set_namespace set_zone,
    sidecar_run-Runs namespace pod_name set_namespace set_name,
  )
