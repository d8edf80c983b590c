-- ===== src/Webhooks/Injector.antt =====
-- webhooks/pod.go
pub mod Injection
use kube_overlay_operator.Base.{
  ℕ, String, ◌<>◌, Bool, true, false, not, Option, none, some, List, [], ◌∷◌, ◌++◌, ◌==◌,
  if◌then◌else◌,
}
use kube_overlay_operator.Base.Dict.{lookup}
use kube_overlay_operator.Base.Result.{Result, ok, err}
use kube_overlay_operator.Api.{
  ObjectMeta, Pod, Container, EnvVar, VolumeMount, Probe, Volume, VolumeSource, host_path,
  projected, secret, config_map, downward_api, ServiceAccount,
}
use kube_overlay_operator.External.Lo.{Lo}
use kube_overlay_operator.External.Client.{Client}
use kube_overlay_operator.NamespaceController.{overlay_service_account}
use kube_overlay_operator.PodController.Reconcile.{has_overlay_label, pod_finalizer}
use kube_overlay_operator.Webhooks.Response.{
  Denial, reserved_volume_name, Response, allowed, denied, errored, patched, status_bad_request,
  status_precondition_failed, status_internal_server_error,
}

abbrev pub modules_volume_name : String
modules_volume_name = "lib-modules"

abbrev pub modules_path : String
modules_path = "/lib/modules"

abbrev pub sa_path : String
sa_path = "/var/run/secrets/kubernetes.io/serviceaccount"

abbrev pub sidecar_api_access : String
sidecar_api_access = "overlay-sidecar-api-access"

-- A request, with its pod as the decoder reads it: none where it returns an error.
pub record Request : Type 0 where
  pub namespace : String
  pub object : Option Pod

-- The environment of the webhook.
pub record Environment : Type 0 where
  pub sidecar_image : String
  pub sidecar_pull_policy : String

abbrev pub probe : String → Probe
probe path = record {
  initial_delay_seconds = 10;
  period_seconds = 10;
  timeout_seconds = 5;
  success_threshold = 1;
  failure_threshold = 3;
  port = 12000;
  path = path;
}

abbrev pub sidecar : Environment → Container
sidecar env = record {
  name = "overlaysidecar";
  image = env.sidecar_image;
  image_pull_policy = env.sidecar_pull_policy;
  env =
      record { name = "POD_NAME"; field_path = "metadata.name" }
      ∷ record { name = "POD_NAMESPACE"; field_path = "metadata.namespace" }
      ∷ [];
  added_capabilities = "SYS_MODULE" ∷ "NET_ADMIN" ∷ [];
  readiness_probe = some (probe "/readyz");
  liveness_probe = some (probe "/healthz");
  volume_mounts =
      record { name = modules_volume_name; mount_path = modules_path; read_only = true }
      ∷ record { name = sidecar_api_access; mount_path = sa_path; read_only = true }
      ∷ [];
}

-- The volumes of the sidecar, with the name of the secret that holds its token.
abbrev pub sidecar_volumes : String → List Volume
sidecar_volumes token_secret =
    record { name = modules_volume_name; source = host_path modules_path }
    ∷ record {
      name = sidecar_api_access;
      source = projected (
          secret token_secret (record { key = "token"; path = "token" } ∷ [])
          ∷ config_map "kube-root-ca.crt" (record { key = "ca.crt"; path = "ca.crt" } ∷ [])
          ∷ downward_api "namespace" "v1" "metadata.namespace"
          ∷ []);
    }
    ∷ []

-- `sa.Secrets[0].Name`, behind the step that adds a name to an empty list.
abbrev pub token_secret_name : ServiceAccount → String
token_secret_name sa = elim sa.secrets [ [] ↦ sa.name <> "-token" | s ∷ _ ↦ s ]

-- The pod with the finalizer, the sidecar and its volumes.
unfoldable pub inject : Environment → ServiceAccount → Pod → Pod
inject env sa pod = record pod {
  meta = record (pod.meta) { finalizers = pod.meta.finalizers ++ pod_finalizer ∷ [] };
  containers = pod.containers ++ sidecar env ∷ [];
  volumes = pod.volumes ++ sidecar_volumes (token_secret_name sa);
}

module _ (lo : Lo) (c : Client) (env : Environment) (marshals : Pod → Bool) where
  -- A container mounts a volume of the sidecar's name.
  unfoldable pub mounts_modules : Pod → Bool
  mounts_modules pod =
      lo.contains_by pod.containers
        (λ k. lo.contains_by k.volume_mounts (λ v. v.name == modules_volume_name))

  unfoldable pub has_modules_volume : Pod → Bool
  has_modules_volume pod = lo.contains_by pod.volumes (λ v. v.name == modules_volume_name)

  -- Handle behind the lookup of the service account.
  unfoldable pub admit : ServiceAccount → Pod → Response
  admit sa pod =
      if mounts_modules pod
      then denied (reserved_volume_name modules_volume_name)
      else if has_modules_volume pod
      then denied (reserved_volume_name modules_volume_name)
      else if marshals (inject env sa pod)
      then patched (inject env sa pod)
      else errored status_internal_server_error

  unfoldable pub handle : Request → Response
  handle req = elim req.object [
    | none ↦ errored status_bad_request
    | some pod ↦
        if not (has_overlay_label pod)
        then allowed "no label in pod, continuing"
        else elim (c.get_service_account [] req.namespace overlay_service_account) [
          | err e ↦ errored status_precondition_failed
          | ok sa ↦ admit sa pod
        ]
  ]
