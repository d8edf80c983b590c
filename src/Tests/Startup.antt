-- ===== src/Tests/Startup.antt =====
-- The programs at an environment that sets all variables, where each call succeeds.
use kube_overlay_operator.Base.{true, refl, [], ◌∷◌, map}
use kube_overlay_operator.Base.Strings.{string_dec}
use kube_overlay_operator.Base.Dict.{lookup}
use kube_overlay_operator.Base.Outcome.{Post}
use kube_overlay_operator.External.Runtime.{Runtime, Host, Call, start}
use kube_overlay_operator.Startup.{operator_main, webhook_main, dns_main, sidecar_run, sidecar_main}
use kube_overlay_operator.Startup.Stages.{Runs, IsStopped}
use kube_overlay_operator.Startup.Order.{
  operator_plan, webhook_plan, dns_plan, sidecar_plan, mains-Runs,
}
use kube_overlay_operator.Startup.Cleaning.{IsCleaned, sidecar_main-IsCleaned}
use kube_overlay_operator.Tests.Kernel.{State, kernel, kernel-IsNetlink, link_of}

-- The manager's run adds a link.
abbrev run_effect : Call → State → State
run_effect start k = record k { links = "oA_2s7ulrlaj6so2" ∷ k.links }
run_effect _ k = k

abbrev container : Runtime State
container = record {
  string_flag = λ name default. default;
  bool_flag = λ name default. default;
  lookup_env = λ name. lookup name (
      ("SIDECAR_IMAGE", "sidecar:1")
      ∷ ("POD_NAMESPACE", "default")
      ∷ ("ROOT_ZONE", "overlay.local")
      ∷ ("POD_NAME", "web-0")
      ∷ []);
  succeeds = λ log c. true;
  effect = λ log c k. run_effect c k;
}

mains-Runs_example :
    Runs container (operator_main container) (operator_plan container)
    × Runs container (webhook_main container) (webhook_plan container)
    × Runs container (dns_main container) (dns_plan container "default" "overlay.local")
    × Runs container (sidecar_run container) (sidecar_plan container "default" "web-0")
unfolding string_dec
mains-Runs_example =
    mains-Runs container "sidecar:1" "default" "overlay.local" "web-0" refl refl refl refl

abbrev booted : Host State
booted = record { calls = []; kernel = record { links = "eth0" ∷ []; ports = []; routes = [] } }

sidecar_main-IsCleaned_example :
    Post
      (λ _.
        IsCleaned kernel-IsNetlink container
          (λ k. (map (link_of k) k.links, refl))
          (λ l k. refl)
          (sidecar_plan container "default" "web-0")
          booted)
      (IsStopped container (sidecar_plan container "default" "web-0") booted)
      (sidecar_main kernel container booted)
unfolding string_dec
sidecar_main-IsCleaned_example =
    sidecar_main-IsCleaned kernel-IsNetlink container (λ k. (map (link_of k) k.links, refl))
      (λ l k. refl) "default" "web-0" booted refl refl
