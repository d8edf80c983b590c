-- ===== src/Api.antt =====
-- api/v1alpha1/overlaynetwork_types.go, and the fields of Kubernetes objects that the code uses.
use kube_overlay_operator.Base.{ℕ, String, Bool, Option, List}
use kube_overlay_operator.Base.Dict.{Dict}
use kube_overlay_operator.Base.Int.{ℤ}

-- metav1.ObjectMeta
pub record ObjectMeta : Type 0 where
  pub name : String
  pub namespace : String
  pub labels : Dict String
  pub annotations : Dict String
  pub finalizers : List String
  pub deletion_timestamp : Option String

pub record OverlayNetworkExtraRoute : Type 0 where
  pub name : String
  pub routable_cidrs : List String

pub record OverlayNetworkSpec : Type 0 where
  pub allocatable_cidr : String
  pub port : ℤ
  pub routable_cidrs : List String
  pub optional_routes : List OverlayNetworkExtraRoute
  pub service_names : List String

pub record OverlayNetworkIpAllocation : Type 0 where
  pub pod_name : String
  pub pod_ip : String
  pub ip : String
  pub extra_networks : List String

-- A nil map of optional routers reads as the empty one, and both are the empty dictionary here:
-- Reconcile of the pod controller makes the map before it is written to.
pub record OverlayNetworkStatus : Type 0 where
  pub allocations : List OverlayNetworkIpAllocation
  pub routers : List OverlayNetworkIpAllocation
  pub optional_routers : Dict (List OverlayNetworkIpAllocation)

pub record OverlayNetwork : Type 0 where
  pub meta : ObjectMeta
  pub spec : OverlayNetworkSpec
  pub status : OverlayNetworkStatus

-- corev1.EnvVar, with a value from a field of the pod.
pub record EnvVar : Type 0 where
  pub name : String
  pub field_path : String

-- corev1.VolumeMount
pub record VolumeMount : Type 0 where
  pub name : String
  pub mount_path : String
  pub read_only : Bool

-- corev1.Probe, with an HTTPGetAction.
pub record Probe : Type 0 where
  pub initial_delay_seconds : ℕ
  pub period_seconds : ℕ
  pub timeout_seconds : ℕ
  pub success_threshold : ℕ
  pub failure_threshold : ℕ
  pub port : ℕ
  pub path : String

-- corev1.Container
pub record Container : Type 0 where
  pub name : String
  pub image : String
  pub image_pull_policy : String
  pub env : List EnvVar
  pub added_capabilities : List String
  pub readiness_probe : Option Probe
  pub liveness_probe : Option Probe
  pub volume_mounts : List VolumeMount

-- corev1.KeyToPath
pub record KeyToPath : Type 0 where
  pub key : String
  pub path : String

-- corev1.VolumeProjection
pub data VolumeProjection : Type 0 where
  secret : String → List KeyToPath → VolumeProjection
  config_map : String → List KeyToPath → VolumeProjection
  downward_api : (path api_version field_path : String) → VolumeProjection

-- corev1.VolumeSource; `other_source` stands for the kinds that the code does not build.
pub data VolumeSource : Type 0 where
  host_path : String → VolumeSource
  projected : List VolumeProjection → VolumeSource
  other_source : VolumeSource

-- corev1.Volume
pub record Volume : Type 0 where
  pub name : String
  pub source : VolumeSource

-- corev1.Pod
pub record Pod : Type 0 where
  pub meta : ObjectMeta
  pub init_containers : List Container
  pub containers : List Container
  pub volumes : List Volume
  pub pod_ip : String

-- corev1.ServiceAccount; of its secrets the names.
pub record ServiceAccount : Type 0 where
  pub name : String
  pub namespace : String
  pub secrets : List String

-- corev1.Secret
pub record Secret : Type 0 where
  pub name : String
  pub namespace : String
  pub secret_type : String
  pub annotations : Dict String

-- rbacv1.Subject
pub record Subject : Type 0 where
  pub kind : String
  pub api_group : String
  pub namespace : String
  pub name : String

-- rbacv1.RoleRef
pub record RoleRef : Type 0 where
  pub api_group : String
  pub kind : String
  pub name : String

-- rbacv1.RoleBinding
pub record RoleBinding : Type 0 where
  pub name : String
  pub namespace : String
  pub subjects : List Subject
  pub role_ref : RoleRef
