-- ===== src/Cluster/Admission.antt =====
-- The stored network where the validating webhook stands in front of the API server.
use kube_overlay_operator.Base.{
  String, Bool, ◌≡◌, refl, sym, ap, subst, ◌∙◌, Option, none, some, List, arith,
}
use kube_overlay_operator.Base.Lists.{All}
use kube_overlay_operator.Base.Result.{ok}
use kube_overlay_operator.Api.{OverlayNetwork, OverlayNetworkStatus, Pod}
use kube_overlay_operator.External.Lo.{Lo, IsLo, transport_lo}
use kube_overlay_operator.External.Finalizers.{Finalizers, IsFinalizers}
use kube_overlay_operator.External.Client.{Write, update_network}
use kube_overlay_operator.External.Server.{Server, IsServer, stored, written}
use kube_overlay_operator.Net.Text.{NetText}
use kube_overlay_operator.PodController.Allocation.{allocated_status, deallocated_status}
use kube_overlay_operator.PodController.WellFormed.{ips}
use kube_overlay_operator.Webhooks.Response.{allowed}
use kube_overlay_operator.Webhooks.Validator.{handle}
use kube_overlay_operator.Webhooks.Validator.Admission.{
  creation, update_of, IsValidSpec, handle-creation_iff, update-SameCore,
}
use kube_overlay_operator.OverlayController.Finalizer.{needed_write, by_deletion-needed_write}
use kube_overlay_operator.Cluster.{System, Sends, Reach}
use kube_overlay_operator.Cluster.Always.{
  IfStored, unless_finalized-IfStored, AllKeep, Reach-IsSound,
}
use kube_overlay_operator.Cluster.Inside.{
  IsInside, IsContained, allocated_status-AreInside, deallocated_status-AreInside,
}

-- The webhook allows a creation, or an update from the old network.
abbrev pub IsAdmitted : Lo → NetText → Option OverlayNetwork → OverlayNetwork → Type 0
IsAdmitted lo net none nw = handle lo net (creation net nw) ≡ allowed "ok"
IsAdmitted lo net (some old) nw = handle lo net (update_of net old nw) ≡ allowed "ok"

-- A write of the whole network that leaves its specification.
abbrev IsSpecOf : OverlayNetwork → Write → Type 0
IsSpecOf nw (update_network nw') = nw'.spec ≡ nw.spec
IsSpecOf nw _ = ⊥

needed_write-IsSpecOf :
    (time : Option String) (nw : OverlayNetwork) (w : Write)
    → needed_write time nw ≡ some w
    → IsSpecOf nw w
needed_write-IsSpecOf none nw w e = ground arith
needed_write-IsSpecOf (some time) nw w e = ground arith

module _ {lo : Lo} (lo_laws : IsLo lo) (net : NetText) where
  allocates-IsContained :
      (nw : OverlayNetwork) (pod : Pod) (is_router : Bool)
      (extra_networks extra_routers : List String) (s : OverlayNetworkStatus)
      → IsContained net nw
      → allocated_status lo net nw pod is_router extra_networks extra_routers ≡ ok s
      → IsContained net (record nw { status = s })
  allocates-IsContained nw pod is_router extra_networks extra_routers s h =
      transport_lo lo_laws
        (λ lo.
          allocated_status lo net nw pod is_router extra_networks extra_routers ≡ ok s
          → IsContained net (record nw { status = s }))
        (λ e. record {
          valid = h.valid;
          inside =
              allocated_status-AreInside net nw pod is_router extra_networks extra_routers s
                h.inside e;
        })

  deallocates-IsContained :
      (nw : OverlayNetwork) (pod : Pod)
      → IsContained net nw
      → IsContained net (record nw { status = deallocated_status lo net nw pod })
  deallocates-IsContained nw pod h =
      transport_lo lo_laws
        (λ lo. IsContained net (record nw { status = deallocated_status lo net nw pod }))
        (record { valid = h.valid; inside = deallocated_status-AreInside net nw pod h.inside })

  -- The parts of a network that matter.
  as_before-IsContained :
      (old nw : OverlayNetwork)
      → nw.spec ≡ old.spec
      → nw.status ≡ old.status
      → IsContained net old
      → IsContained net nw
  as_before-IsContained old nw same_spec same_status h = record {
    valid = subst (IsValidSpec net) (sym same_spec) h.valid;
    inside = rw (same_spec, same_status) h.inside;
  }

  settled-IsContained :
      (nw : OverlayNetwork) (w : Write)
      → IsContained net nw
      → IsSpecOf nw w
      → IfStored (IsContained net) (written nw w)
  settled-IsContained nw (Write.update_network nw') h same =
      unless_finalized-IfStored (IsContained net) _ nw.meta.deletion_timestamp nw'.meta.finalizers
        (as_before-IsContained nw _ same refl h)
  settled-IsContained nw (Write.update_status nw') h bad = absurd bad
  settled-IsContained nw (Write.update_pod pod) h bad = absurd bad
  settled-IsContained nw (Write.create_service_account a) h bad = absurd bad
  settled-IsContained nw (Write.create_secret s) h bad = absurd bad
  settled-IsContained nw (Write.create_role_binding r) h bad = absurd bad

  edited-IsContained :
      (old nw : OverlayNetwork)
      → IsContained net old
      → IsAdmitted lo net (some old) nw
      → IfStored (IsContained net) (written old (update_network nw))
  edited-IsContained old nw h admitted =
      let ((port, cidr), routable) = update-SameCore lo_laws net old nw admitted in
      unless_finalized-IfStored (IsContained net) _ old.meta.deletion_timestamp nw.meta.finalizers
        (record {
          valid = record {
            port = h.valid.port;
            port_eq = port ∙ h.valid.port_eq;
            port_low = h.valid.port_low;
            port_high = h.valid.port_high;
            allocatable = λ e. h.valid.allocatable (ap net.parse_cidr (sym cidr) ∙ e);
            routable = routable;
          };
          inside =
              subst (λ c. All (IsInside net c) (ips old.status.allocations)) (sym cidr) h.inside;
        })

  module _ {fz : Finalizers} (fz_laws : IsFinalizers fz) where
    Sends-IsContained :
        (nw : OverlayNetwork) {removed : Option String} {w : Write}
        → IsContained net nw
        → Sends lo net fz nw removed w
        → IfStored (IsContained net) (written nw w)
    Sends-IsContained nw h (Sends.allocates pod is_router extra_networks extra_routers s made) =
        allocates-IsContained nw pod is_router extra_networks extra_routers s h made
    Sends-IsContained nw h (Sends.deallocates c pod unwanted) = deallocates-IsContained nw pod h
    Sends-IsContained nw h (Sends.settles c w sent) = settled-IsContained nw w h (
        needed_write-IsSpecOf nw.meta.deletion_timestamp nw w
          (by_deletion-needed_write fz_laws c nw w sent))

    AllKeep-IsContained : AllKeep lo net fz (IsAdmitted lo net) (IsContained net)
    AllKeep-IsContained = record {
      sends = λ nw h sent. Sends-IsContained nw h sent;
      edits = edited-IsContained;
      creates = λ nw admitted. record {
        valid = (handle-creation_iff lo_laws net nw).0 admitted;
        inside = tt;
      };
      deletes = λ time nw h.
          unless_finalized-IfStored (IsContained net) _ _ nw.meta.finalizers
            (as_before-IsContained nw _ refl refl h);
    }

    -- Where the validating webhook stands in front of users' creations and updates, in every
    -- interleaving the stored network has a valid specification, and each allocated address is the
    -- text of an address in its allocatable network.
    pub Reach-IsContained :
        {sv : Server} (laws : IsServer sv) {s : System sv}
        → Reach lo net fz (IsAdmitted lo net) s
        → IfStored (IsContained net) (stored sv s.store)
    Reach-IsContained laws reach =
        (Reach-IsSound lo net fz (IsAdmitted lo net) (IsContained net) AllKeep-IsContained laws
          reach).now
