-- ===== src/Tunneler.antt =====
-- tunneler/network_controller.go
pub mod Naming
pub mod Keeps
pub mod Calm
pub mod Links
pub mod Routes
pub mod Interfaces
pub mod Reconcile
pub mod Shutdown
use kube_overlay_operator.Base.{ℕ, String, Bool, Option, none, some, List, []}
use kube_overlay_operator.Base.Dict.{Dict}
use kube_overlay_operator.Base.Outcome.{Act, Outcome, returned, failed, ◌>>=◌}
use kube_overlay_operator.Base.Result.{Result, ok, err}
use kube_overlay_operator.External.Client.{ApiError}
use kube_overlay_operator.External.Netlink.{Netlink}
use kube_overlay_operator.Net.Bytes.{Ip, IpNet}

-- The fields of TunnelReconciler. An int32 is its bit pattern.
pub record TunnelReconciler : Type 0 where
  pub my_pod_name : String
  pub network_to_name : Dict ℕ
  pub network_index : ℕ

pub record LinkInfo : Type 0 where
  pub remote_ip : String
  pub local_ip : String
  pub in_tunnel_local_ip : String
  pub in_tunnel_remote_ip : String
  pub processed : Bool

pub record RouteState : Type 0 where
  pub net : IpNet
  pub router : Ip

-- SetupWithManager up to the registration, with the environment's POD_NAME; none is its error.
unfoldable pub setup_with_manager : Option String → Option TunnelReconciler
setup_with_manager none = none
setup_with_manager (some pn) =
    some (record { my_pod_name = pn; network_to_name = []; network_index = 0 })

module _ (nl : Netlink) where
  -- What a reconciliation changes.
  pub record World : Type 0 where
    pub self : TunnelReconciler
    pub kernel : nl.Kernel

  -- The errors: of the API server, of the kernel, and of a CIDR that does not parse. The texts that
  -- the code wraps around them are left out.
  pub data TunnelError : Type 0 where
    api_error : ApiError → TunnelError
    netlink_error : nl.Error → TunnelError
    invalid_cidr : TunnelError

  abbrev pub Action : Type 0 → Type 0
  Action A = Act World TunnelError A

  abbrev pub answered :
      Option nl.Error × nl.Kernel → TunnelReconciler → Outcome TunnelError (Unit {0}) × World
  answered (none, k) self = (returned tt, record { self = self; kernel = k })
  answered (some e, k) self = (failed (netlink_error e), record { self = self; kernel = k })

  -- A call that changes the kernel, and `if err != nil { return err }`.
  abbrev pub call : (nl.Kernel → Option nl.Error × nl.Kernel) → Action (Unit {0})
  call f w = answered (f w.kernel) w.self

  abbrev pub or_fail : {A : Type 0} → Result nl.Error A → Action A
  or_fail (ok a) w = (returned a, w)
  or_fail (err e) w = (failed (netlink_error e), w)

  -- A call that reads from the kernel.
  abbrev pub query : {A : Type 0} → (nl.Kernel → Result nl.Error A) → Action A
  query f w = or_fail (f w.kernel) w
