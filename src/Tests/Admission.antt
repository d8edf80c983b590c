-- ===== src/Tests/Admission.antt =====
-- The webhooks at a concrete network and a concrete pod.
use kube_overlay_operator.Base.{Bool, true, ◌≡◌, ◌↔◌, refl, some, [], ◌∷◌}
use kube_overlay_operator.Base.Strings.{string_dec}
use kube_overlay_operator.Api.{OverlayNetwork, Pod, other_source}
use kube_overlay_operator.External.Lo.{documented_lo, documented_lo-IsLo}
use kube_overlay_operator.Webhooks.Response.{allowed, denied, patched, reserved_volume_name}
use kube_overlay_operator.Webhooks.Validator as Validator
use kube_overlay_operator.Webhooks.Validator.Admission.{
  IsValidSpec, SameCore, creation, History, created, updated, handle-creation_iff,
  History-IsValidSpec,
}
use kube_overlay_operator.Webhooks.Injector.{
  Environment, sidecar_api_access, modules_volume_name, inject, mounts_modules, has_modules_volume,
  admit, handle,
}
use kube_overlay_operator.Webhooks.Injector.Injection.{IsInjected, handle-IsInjected, handle-handle}
use kube_overlay_operator.Tests.Text.{text}
use kube_overlay_operator.Tests.Objects.{lan, web_pod, account, server}

handle-creation_iff_example :
    (Validator.handle documented_lo text (creation text lan) ≡ allowed "ok")
    ↔ IsValidSpec text lan.spec
handle-creation_iff_example = handle-creation_iff documented_lo-IsLo text lan

-- The network without services.
abbrev quiet_lan : OverlayNetwork
quiet_lan = record lan { spec = record (lan.spec) { service_names = [] } }

lan-History : History documented_lo text lan quiet_lan
unfolding Validator.handle Validator.check_operation Validator.check_create Validator.check_update
    Validator.check_routable string_dec
lan-History = updated quiet_lan (created refl) refl

History-IsValidSpec_example : IsValidSpec text quiet_lan.spec × SameCore text lan quiet_lan
History-IsValidSpec_example = History-IsValidSpec documented_lo-IsLo text lan quiet_lan lan-History

abbrev environment : Environment
environment = record { sidecar_image = "sidecar:latest"; sidecar_pull_policy = "Always" }

abbrev always : Pod → Bool
always pod = true

-- A pod with a volume of the name that the sidecar uses.
abbrev clashing_pod : Pod
clashing_pod = record web_pod {
  volumes = record { name = sidecar_api_access; source = other_source } ∷ [];
}

clashing_pod-patched :
    handle documented_lo server environment always
      (record { namespace = "default"; object = some clashing_pod })
    ≡ patched (inject environment account clashing_pod)
unfolding handle admit mounts_modules has_modules_volume string_dec
clashing_pod-patched = refl

handle-IsInjected_example :
    IsInjected server environment "default" clashing_pod (inject environment account clashing_pod)
handle-IsInjected_example =
    handle-IsInjected server environment always documented_lo-IsLo "default" clashing_pod
      (inject environment account clashing_pod) clashing_pod-patched

handle-handle_example :
    handle documented_lo server environment always
      (record { namespace = "default"; object = some (inject environment account clashing_pod) })
    ≡ denied (reserved_volume_name modules_volume_name)
handle-handle_example =
    handle-handle server environment always documented_lo-IsLo "default" clashing_pod
      (inject environment account clashing_pod) clashing_pod-patched
