-- ===== src/Webhooks/Validator.antt =====
-- webhooks/validating.go
pub mod Admission
use kube_overlay_operator.Base.{
  ℕ, String, Bool, true, false, not, Option, none, some, List, [], ◌∷◌, ◌==◌, ◌||◌, if◌then◌else◌,
}
use kube_overlay_operator.Base.Int.{ℤ, int_eq, int_le}
use kube_overlay_operator.Api.{OverlayNetwork, OverlayNetworkSpec}
use kube_overlay_operator.External.Lo.{Lo}
use kube_overlay_operator.Net.Text.{NetText}
use kube_overlay_operator.Webhooks.Response.{
  Denial, port_out_of_range, port_immutable, allocatable_cidr_immutable, invalid_allocatable_cidr,
  invalid_routable_cidr, Response, allowed, denied, errored, status_bad_request,
}

pub data Operation : Type 0 where
  create update delete connect : Operation

-- A request, with its objects as the decoder reads them: none where it returns an error.
pub record Request : Type 0 where
  pub operation : Operation
  pub object : Option OverlayNetwork
  pub old_object : Option OverlayNetwork

module _ (lo : Lo) (net : NetText) where
  abbrev pub is_cidr : String → Bool
  is_cidr s = elim (net.parse_cidr s) [ none ↦ false | some _ ↦ true ]

  -- The tests of a creation; none if they pass.
  unfoldable pub check_create : OverlayNetworkSpec → Option Response
  check_create spec =
      if int_le spec.port 0 || not (int_le spec.port 65535)
      then some (denied port_out_of_range)
      else if not (is_cidr spec.allocatable_cidr)
      then some (denied (invalid_allocatable_cidr spec.allocatable_cidr))
      else none

  -- The tests of an update against the old object; none if they pass.
  unfoldable pub check_update : OverlayNetworkSpec → Option OverlayNetwork → Option Response
  check_update spec none = some (errored status_bad_request)
  check_update spec (some old) =
      if not (int_eq old.spec.port spec.port)
      then some (denied port_immutable)
      else if not (old.spec.allocatable_cidr == spec.allocatable_cidr)
      then some (denied allocatable_cidr_immutable)
      else none

  unfoldable pub check_operation :
      Operation → OverlayNetworkSpec → Option OverlayNetwork → Option Response
  unfolding check_create check_update
  check_operation create spec old = check_create spec
  check_operation update spec old = check_update spec old
  check_operation delete spec old = none
  check_operation connect spec old = none

  -- The test of the routable networks, which all operations end with.
  unfoldable pub check_routable : List String → Response
  check_routable cidrs = elim (lo.find_index_of cidrs (λ s. not (is_cidr s))) [
    | some (invalid, index) ↦ denied (invalid_routable_cidr index invalid)
    | none ↦ allowed "ok"
  ]

  unfoldable pub handle : Request → Response
  handle req = elim req.object [
    | none ↦ errored status_bad_request
    | some nw ↦ elim (check_operation req.operation nw.spec req.old_object) [
      | some response ↦ response
      | none ↦ check_routable nw.spec.routable_cidrs
    ]
  ]
