-- ===== src/Tests/Networks.antt =====
-- The controllers of networks and namespaces at a concrete server.
use kube_overlay_operator.Base.{◌<>◌, ◌≡◌, ◌≢◌, refl, none, [], arith}
use kube_overlay_operator.Base.Strings.{string_dec}
use kube_overlay_operator.Base.Result.{ok, err}
use kube_overlay_operator.External.Finalizers.{
  documented_finalizers, documented_finalizers-IsFinalizers,
}
use kube_overlay_operator.External.Client.{Client, already_exists, done}
use kube_overlay_operator.OverlayController as OverlayController
use kube_overlay_operator.OverlayController.Finalizer.{
  needed_write, outcome, after_write, reconcile-needed_write, reconcile-settled,
}
use kube_overlay_operator.NamespaceController.{
  reconcile, ensure_service_account, ensure_secret, reconcile_secret, ensure_role,
}
use kube_overlay_operator.NamespaceController.Provision.{HasSecret, HasRole, reconcile-done}
use kube_overlay_operator.NamespaceController.Fresh.{IsFresh, reconcile-IsFresh}
use kube_overlay_operator.Tests.Objects.{lan, account, server, bare_server}

reconcile-needed_write_example :
    OverlayController.reconcile documented_finalizers server "default" "lan" []
    ≡ outcome server (needed_write none lan)
reconcile-needed_write_example =
    reconcile-needed_write documented_finalizers-IsFinalizers server "default" "lan" lan refl

-- The server after its network got the finalizer.
abbrev later_server : Client
later_server = record server {
  get_network = λ log ns name. ok (after_write lan (needed_write none lan));
}

reconcile-settled_example :
    OverlayController.reconcile documented_finalizers later_server "default" "lan" [] ≡ (done, [])
reconcile-settled_example =
    reconcile-settled documented_finalizers-IsFinalizers later_server "default" "lan" lan refl

reconcile-IsFresh_example : IsFresh bare_server "default" (reconcile bare_server "default" [])
reconcile-IsFresh_example = reconcile-IsFresh bare_server "default" (λ log. ground arith) refl

secret_missing :
    server.get_secret [] account.namespace (account.name <> "-token") ≢ err already_exists
secret_missing = ground arith

run_succeeds : (reconcile server "default" []).0 ≡ done
unfolding reconcile ensure_service_account ensure_secret reconcile_secret ensure_role string_dec
run_succeeds = refl

reconcile-done_example :
    HasSecret server account (reconcile server "default" []).1
    × HasRole server "default" (reconcile server "default" []).1
reconcile-done_example = reconcile-done server "default" account secret_missing refl run_succeeds
