-- ===== src/PodController/Choice.antt =====
-- The address that allocateIP chooses for a pod without an allocation.
use kube_overlay_operator.Base.{
  String, Bool, true, false, ◌≡◌, none, some, [], arith, Option-cases, Bool-cases, inl, inr,
}
use kube_overlay_operator.Base.Lists.{contains}
use kube_overlay_operator.Base.Dict.{Dict}
use kube_overlay_operator.Base.Result.{ok}
use kube_overlay_operator.Api.{OverlayNetwork, Pod}
use kube_overlay_operator.External.Lo.{Lo, IsLo, documented_lo, transport_lo}
use kube_overlay_operator.Net.Bytes.{Ip, IpNet, contains_ip}
use kube_overlay_operator.Net.Text.{NetText}
use kube_overlay_operator.Iputil.{HostResult, host, failed, first_free_host}
use kube_overlay_operator.Iputil.Host.{first_free_host-inside, first_free_host-requested}
use kube_overlay_operator.PodController.Allocation.{
  fill_allocation_map, requested_ip, request_fits, host_or_error, choose_ip,
}
use kube_overlay_operator.PodController.Ensure.{choose_ip-free}
use kube_overlay_operator.PodController.WellFormed.{ips}

-- A text that may be given to a pod as its address: of an address in the network, which is the
-- requested one if there is a request, and free. The network is not being deleted.
pub record IsChosen (lo : Lo) (net : NetText) (nw : OverlayNetwork) (pod : Pod) (ip : String)
    : Type 0 where
  pub undeleted : nw.meta.deletion_timestamp ≡ none
  pub base : Ip
  pub cidr : IpNet
  pub parsed : net.parse_cidr nw.spec.allocatable_cidr ≡ some (base, cidr)
  pub address : Ip
  pub printed : ip ≡ net.ip_string address
  pub inside : contains_ip cidr address ≡ true
  pub requested :
      (wanted : Ip) → requested_ip lo net nw pod ≡ some wanted → net.ip_string wanted ≡ ip
  pub free : contains (ips nw.status.allocations) ip ≡ false

host_or_error-eq-ok :
    (net : NetText) (r : HostResult) (ip : String)
    → host_or_error documented_lo net r ≡ ok ip
    → r ≡ host ip
host_or_error-eq-ok net (host s) ip e = ground arith
host_or_error-eq-ok net (failed x) ip e = cc

module _ (net : NetText) (nw : OverlayNetwork) (pod : Pod) (ip : String) where
  abbrev allocated : Dict Bool
  allocated = fill_allocation_map [] nw.status.allocations

  -- The steps of `choose_ip` behind a result.
  choose_ip-eq-ok :
      choose_ip documented_lo net nw pod ≡ ok ip
      → (nw.meta.deletion_timestamp ≡ none)
        × (base : Ip) × (cidr : IpNet) × (net.parse_cidr nw.spec.allocatable_cidr
            ≡ some (base, cidr))
        × (request_fits documented_lo net cidr (requested_ip documented_lo net nw pod) ≡ true)
        × (first_free_host net nw.spec.allocatable_cidr allocated
              (requested_ip documented_lo net nw pod)
            ≡ host ip)
  unfolding choose_ip
  choose_ip-eq-ok e = elim (Option-cases nw.meta.deletion_timestamp) [
    | inr (time, deleted) ↦ absurd (ground (arith, deleted))
    | inl alive ↦ elim (Option-cases (net.parse_cidr nw.spec.allocatable_cidr)) [
      | inl bad ↦ absurd (ground (arith, alive, bad))
      | inr ((base, cidr), p) ↦
          elim (Bool-cases
            (request_fits documented_lo net cidr (requested_ip documented_lo net nw pod))) [
              | inr misfit ↦ absurd (ground (arith, alive, p, misfit))
              | inl fits ↦ (
                alive,
                base,
                cidr,
                p,
                fits,
                host_or_error-eq-ok net
                    (first_free_host net nw.spec.allocatable_cidr allocated
                      (requested_ip documented_lo net nw pod))
                    ip (rw (alive, p, fits, choose_ip) at e),
              )
            ]
    ]
  ]

  choose_ip-documented :
      choose_ip documented_lo net nw pod ≡ ok ip → IsChosen documented_lo net nw pod ip
  choose_ip-documented e =
      let (alive, base, cidr, p, fits, found) = choose_ip-eq-ok e in
      let free = choose_ip-free net nw pod ip e in
      elim (Option-cases (requested_ip documented_lo net nw pod)) [
        | inl unasked ↦
            let (x, printed, inside) =
              first_free_host-inside net allocated base cidr nw.spec.allocatable_cidr ip p
                (rw unasked at found) in
            record {
              undeleted = alive;
              base = base;
              cidr = cidr;
              parsed = p;
              address = x;
              printed = printed;
              inside = inside;
              requested = λ w asked. cc;
              free = free;
            }
        | inr (w, asked) ↦
            let printed =
              first_free_host-requested net allocated base cidr nw.spec.allocatable_cidr ip w p
                (rw asked at found) in
            record {
              undeleted = alive;
              base = base;
              cidr = cidr;
              parsed = p;
              address = w;
              printed = printed;
              inside = rw asked at fits;
              requested = λ v asked'. cc;
              free = free;
            }
      ]

-- An address that is chosen for a new pod is the text of an address in the allocatable network of a
-- network that is not being deleted. No pod has it, and if the pod requests an address, it is the
-- text of that one.
pub choose_ip-IsChosen :
    {lo : Lo} (laws : IsLo lo) (net : NetText) (nw : OverlayNetwork) (pod : Pod) (ip : String)
    → choose_ip lo net nw pod ≡ ok ip
    → IsChosen lo net nw pod ip
choose_ip-IsChosen laws net nw pod ip =
    transport_lo laws (λ lo. choose_ip lo net nw pod ≡ ok ip → IsChosen lo net nw pod ip)
      (choose_ip-documented net nw pod ip)
