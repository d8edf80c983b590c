-- ===== src/Startup/Cleaning.antt =====
-- What the sidecar leaves in the kernel when its program ends.
use kube_overlay_operator.Base.{ℕ, String, true, not, ◌&&◌, ◌≡◌, ap, ◌∙◌, some, List}
use kube_overlay_operator.Base.Outcome.{Outcome, returned, failed, panicked, continue, Post}
use kube_overlay_operator.Base.Result.{ok}
use kube_overlay_operator.External.Netlink.{Netlink, IsNetlink, Link, succeeded}
use kube_overlay_operator.External.Runtime.{Runtime, Host, Call}
use kube_overlay_operator.Tunneler.Shutdown.{link_name_matches}
use kube_overlay_operator.Tunneler.Shutdown.Removal.{shutdown-has_link}
use kube_overlay_operator.Startup.{shut_down, sidecar_main}
use kube_overlay_operator.Startup.Stages.{IsStaged, IsStopped, effects}
use kube_overlay_operator.Startup.Order.{sidecar_plan, sidecar_run-Runs}

module _ {nl : Netlink} (laws : IsNetlink nl) (rt : Runtime nl.Kernel)
    (lists : (k : nl.Kernel) → (ls : List Link) × (nl.link_list k ≡ ok ls))
    (deletes : (l : Link) (k : nl.Kernel) → succeeded (nl.link_del l k) ≡ true) where
  -- The links are those that the calls have left, without those whose name matches.
  abbrev pub IsCleaned : List Call → Host nl.Kernel → Host nl.Kernel → Type 0
  IsCleaned plan before after =
      (x : String)
      → laws.has_link after.kernel x ≡ (
          laws.has_link (effects rt before.calls plan before.kernel) x && not (link_name_matches x))

  shut_down-IsCleaned :
      (plan : List Call) (w : Host nl.Kernel) (r : Outcome ℕ (Unit {0}) × Host nl.Kernel)
      → IsStaged rt plan w r
      → Post (λ _. IsCleaned plan w) (IsStopped rt plan w) (continue r (λ _. shut_down nl rt))
  unfolding continue
  shut_down-IsCleaned plan w (returned a, v) h = λ x.
      let (ls, listed) = lists v.kernel in
      shutdown-has_link laws deletes v.kernel ls x listed
      ∙ ap (λ k. laws.has_link k x && not (link_name_matches x)) h.left
  shut_down-IsCleaned plan w (failed code, v) (e, h) = h
  shut_down-IsCleaned plan w (panicked, v) h = absurd h

  -- Where POD_NAMESPACE and POD_NAME are set and links can be listed and deleted: if the sidecar's
  -- program returns, the links are those that its calls, Start included, have left, less those whose
  -- name matches the pattern. If it exits with an error, from Start too, the kernel is as the calls up
  -- to the failed one have left it, and Shutdown has not run.
  pub sidecar_main-IsCleaned :
      (namespace pod_name : String) (w : Host nl.Kernel)
      → rt.lookup_env "POD_NAMESPACE" ≡ some namespace
      → rt.lookup_env "POD_NAME" ≡ some pod_name
      → let plan = sidecar_plan rt namespace pod_name in
        Post (λ _. IsCleaned plan w) (IsStopped rt plan w) (sidecar_main nl rt w)
  unfolding sidecar_main
  sidecar_main-IsCleaned namespace pod_name w set_namespace set_name =
      shut_down-IsCleaned (sidecar_plan rt namespace pod_name) w _
        ((sidecar_run-Runs rt namespace pod_name set_namespace set_name).staged w)
