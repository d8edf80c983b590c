-- ===== src/Webhooks/Response.antt =====
-- The responses of package admission, with the message of a denial as data.
use kube_overlay_operator.Base.{ℕ, String}
use kube_overlay_operator.Api.{Pod}

-- `invalid_routable_cidr` holds the index and the text that the message shows.
pub data Denial : Type 0 where
  port_out_of_range port_immutable allocatable_cidr_immutable : Denial
  invalid_allocatable_cidr : String → Denial
  invalid_routable_cidr : ℕ → String → Denial
  reserved_volume_name : String → Denial

pub data Response : Type 0 where
  allowed : String → Response
  denied : Denial → Response
  errored : ℕ → Response
  patched : Pod → Response

abbrev pub status_bad_request : ℕ
status_bad_request = 400

abbrev pub status_precondition_failed : ℕ
status_precondition_failed = 412

abbrev pub status_internal_server_error : ℕ
status_internal_server_error = 500
