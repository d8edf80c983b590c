-- ===== src/NamespaceController.antt =====
-- controllers/namespace_controller.go
pub mod Provision
pub mod Fresh
use kube_overlay_operator.Base.{
  String, ◌<>◌, Bool, true, false, not, Option, none, some, List, [], ◌∷◌, if◌then◌else◌, nat_eq,
}
use kube_overlay_operator.Base.Lists.{length}
use kube_overlay_operator.Base.Result.{Result, ok, err}
use kube_overlay_operator.Api.{ServiceAccount, Secret, RoleBinding}
use kube_overlay_operator.External.Client.{
  Client, Log, send, create_service_account, create_secret, create_role_binding, ApiError,
  is_not_found, is_already_exists, ReconcileResult, done, failure,
}

abbrev pub overlay_service_account : String
overlay_service_account = "overlay-network-sidecar"

-- `&corev1.ServiceAccount{}`
abbrev pub zero_service_account : ServiceAccount
zero_service_account = record { name = ""; namespace = ""; secrets = [] }

-- The error of a creation, but none if the object is there already.
abbrev pub unless_exists : Option ApiError → Option ApiError
unless_exists none = none
unless_exists (some e) = if is_already_exists e then none else some e

abbrev pub token_secret : ServiceAccount → Secret
token_secret sa = record {
  namespace = sa.namespace;
  name = sa.name <> "-token";
  secret_type = "kubernetes.io/service-account-token";
  annotations = ("kubernetes.io/service-account.name", sa.name) ∷ [];
}

abbrev pub sidecar_role : String → RoleBinding
sidecar_role ns = record {
  namespace = ns;
  name = overlay_service_account;
  subjects =
      record {
        kind = "ServiceAccount";
        api_group = "";
        namespace = ns;
        name = overlay_service_account;
      }
      ∷ [];
  role_ref = record {
    api_group = "rbac.authorization.k8s.io";
    kind = "ClusterRole";
    name = overlay_service_account;
  };
}

-- The service account that the code goes on with after a creation.
abbrev pub after_creation : Option ApiError × Log → Result ApiError ServiceAccount × Log
after_creation (none, log) = (ok zero_service_account, log)
after_creation (some e, log) =
    if is_already_exists e then (ok zero_service_account, log) else (err e, log)

module _ (c : Client) where
  unfoldable pub reconcile_service_account : String → Log → Option ApiError × Log
  reconcile_service_account ns log =
      send c
        (create_service_account
          (record { name = overlay_service_account; namespace = ns; secrets = [] }))
        log

  unfoldable pub reconcile_secret : ServiceAccount → Log → Option ApiError × Log
  reconcile_secret sa log = elim (c.get_secret log sa.namespace (sa.name <> "-token")) [
    | ok found ↦ (none, log)
    | err e ↦
        if not (is_not_found e)
        then (some e, log)
        else (let (error, log') = send c (create_secret (token_secret sa)) log in
            (unless_exists error, log'))
  ]

  unfoldable pub reconcile_role : String → Log → Option ApiError × Log
  reconcile_role ns log = send c (create_role_binding (sidecar_role ns)) log

  -- The step that reads the service account, or creates it. Where it was not found, the variable
  -- `sa` of the code keeps its zero value, also after the creation.
  unfoldable pub ensure_service_account : String → Log → Result ApiError ServiceAccount × Log
  ensure_service_account ns log = elim (c.get_service_account log ns overlay_service_account) [
    | ok sa ↦ (ok sa, log)
    | err e ↦
        if not (is_not_found e)
        then (err e, log)
        else after_creation (reconcile_service_account ns log)
  ]

  unfoldable pub ensure_secret : ServiceAccount → Log → Option ApiError × Log
  ensure_secret sa log =
      if nat_eq (length sa.secrets) 0
      then (let (error, log') = reconcile_secret sa log in (unless_exists error, log'))
      else (none, log)

  unfoldable pub ensure_role : String → Log → Option ApiError × Log
  ensure_role ns log = elim (c.get_role_binding log ns overlay_service_account) [
    | ok found ↦ (none, log)
    | err e ↦
        if not (is_not_found e)
        then (some e, log)
        else (let (error, log') = reconcile_role ns log in (unless_exists error, log'))
  ]

  -- The result after the last step.
  abbrev pub finish : Option ApiError × Log → ReconcileResult × Log
  finish (none, log) = (done, log)
  finish (some e, log) = (failure e, log)

  -- The last step, unless there was an error.
  abbrev pub then_role : String → Option ApiError × Log → ReconcileResult × Log
  then_role ns (some e, log) = (failure e, log)
  then_role ns (none, log) = finish (ensure_role ns log)

  abbrev pub then_secret : String → Result ApiError ServiceAccount × Log → ReconcileResult × Log
  then_secret ns (err e, log) = (failure e, log)
  then_secret ns (ok sa, log) = then_role ns (ensure_secret sa log)

  unfoldable pub reconcile : String → Log → ReconcileResult × Log
  reconcile ns log = then_secret ns (ensure_service_account ns log)
