-- ===== src/External/Client.antt =====
-- client.Client of controller-runtime: the requests that the code sends to the API server. Each
-- answer is a parameter, and may depend on all requests that were sent before.
use kube_overlay_operator.Base.{String, Bool, true, false, Option, List, [], ◌∷◌, ◌++◌}
use kube_overlay_operator.Base.Result.{Result}
use kube_overlay_operator.Api.{OverlayNetwork, Pod, ServiceAccount, Secret, RoleBinding}

-- What errors.IsNotFound and errors.IsAlreadyExists tell apart.
pub data ApiError : Type 0 where
  not_found already_exists : ApiError
  other_error : String → ApiError

abbrev pub is_not_found : ApiError → Bool
is_not_found not_found = true
is_not_found _ = false

abbrev pub is_already_exists : ApiError → Bool
is_already_exists already_exists = true
is_already_exists _ = false

-- The requests that change objects.
pub data Write : Type 0 where
  update_status update_network : OverlayNetwork → Write
  update_pod : Pod → Write
  create_service_account : ServiceAccount → Write
  create_secret : Secret → Write
  create_role_binding : RoleBinding → Write

-- The writes that were sent so far, with or without success, from the first one on.
abbrev pub Log : Type 0
Log = List Write

-- Get and List, with the log so far and the namespace and name, and the answer to a write.
pub record Client : Type 0 where
  pub get_pod : Log → String → String → Result ApiError Pod
  pub get_network : Log → String → String → Result ApiError OverlayNetwork
  pub get_service_account : Log → String → String → Result ApiError ServiceAccount
  pub get_secret : Log → String → String → Result ApiError Secret
  pub get_role_binding : Log → String → String → Result ApiError RoleBinding
  pub list_networks : Log → String → Result ApiError (List OverlayNetwork)
  pub answer : Log → Write → Option ApiError

-- Sends a write: the error that comes back, if any, and the log after it.
abbrev pub send : Client → Write → Log → Option ApiError × Log
send c w log = (c.answer log w, log ++ w ∷ [])

-- The results of a Reconcile function.
pub data ReconcileResult : Type 0 where
  done requeue : ReconcileResult
  failure : ApiError → ReconcileResult
