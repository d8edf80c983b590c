-- ===== src/Tests/Cluster.antt =====
-- An interleaving: a network is created and gets its finalizer, a pod gets an address, a user
-- deletes the network, and the network controller sends a write that others have overtaken.
use mathlib.Core.List.{Memᴰ}
use kube_overlay_operator.Base.{
  String, true, false, has_prefix, split, ◌≡◌, ◌≢◌, refl, none, some, List, Option, [], ◌∷◌,
}
use kube_overlay_operator.Base.Strings.{string_dec}
use kube_overlay_operator.Base.Result.{ok}
use kube_overlay_operator.Api.{OverlayNetwork, OverlayNetworkStatus, Pod}
use kube_overlay_operator.External.Lo.{documented_lo, documented_lo-IsLo}
use kube_overlay_operator.External.Finalizers.{
  documented_finalizers, documented_finalizers-IsFinalizers,
}
use kube_overlay_operator.External.Client.{Client, Write, update_status, update_network}
use kube_overlay_operator.External.Server.{Snapshot, stored, created}
use kube_overlay_operator.Net.Bytes.{contains_ip, to4}
use kube_overlay_operator.Iputil.{inc, first_free_host, search_from}
use kube_overlay_operator.PodController.Allocation.{
  fill_allocation_map, requested_ip, choose_ip, add_allocation, ensure_allocation,
  record_extra_routers, allocated_status,
}
use kube_overlay_operator.PodController.Reconcile as PodController
use kube_overlay_operator.OverlayController as OverlayController
use kube_overlay_operator.PodController.Wants.{is_wanted}
use kube_overlay_operator.OverlayController.{
  overlay_network_finalizer, with_finalizers, by_deletion, protect,
}
use kube_overlay_operator.Cluster.{System, Sends, Step, Reach, Run}
use kube_overlay_operator.Cluster.Always.{IfStored}
use kube_overlay_operator.Cluster.Invariant.{IsTidy, Reach-IsTidy}
use kube_overlay_operator.Cluster.Holding.{IsHolding, Run-IsHolding}
use kube_overlay_operator.Webhooks.Validator as Validator
use kube_overlay_operator.Cluster.Inside.{IsContained}
use kube_overlay_operator.Cluster.Admission.{IsAdmitted, Reach-IsContained}
use kube_overlay_operator.Cluster.Progress.{Submits, Reach-progress, Reach-release}
use kube_overlay_operator.Cluster.Registry.{Move, book, registry, Step-Move}
use kube_overlay_operator.Tests.Text.{text}
use kube_overlay_operator.Tests.Objects.{address, lan, web_pod, pod_since, server, in_order}
use kube_overlay_operator.Tests.Server.{archive, archive-IsServer, archive-accepts, ticks}

abbrev Cluster : Type 0
Cluster = System archive

abbrev empty : Cluster
empty = record { store = record { history = []; present = false }; seen = [] }

-- The system after a read, and after a write at the version of a snapshot.
abbrev observed : Snapshot → Cluster → Cluster
observed snap s = record s { seen = snap ∷ s.seen }

abbrev submitted : Snapshot → Write → Cluster → Cluster
submitted snap w s = record s { store = (archive.update snap.version w s.store).1 }

abbrev first : Snapshot
first = record { version = ticks 0; network = created lan }

abbrev protected_lan : OverlayNetwork
protected_lan = with_finalizers (created lan) (overlay_network_finalizer ∷ [])

abbrev second : Snapshot
second = record { version = ticks 1; network = protected_lan }

abbrev served_status : OverlayNetworkStatus
served_status = record {
  allocations =
      record { pod_name = "web-0"; pod_ip = "192.168.0.7"; ip = address 1; extra_networks = [] }
      ∷ [];
  routers = [];
  optional_routers = [];
}

served_status_lem :
    allocated_status documented_lo text protected_lan web_pod false [] [] ≡ ok served_status
unfolding allocated_status ensure_allocation add_allocation choose_ip requested_ip
    fill_allocation_map record_extra_routers first_free_host search_from contains_ip to4 inc
    string_dec
served_status_lem = refl

settled_lem :
    (by_deletion documented_finalizers server none (created lan) []).1
    ≡ update_network protected_lan ∷ []
unfolding by_deletion protect string_dec
settled_lem = refl

abbrev fresh : Cluster
fresh = observed first (record empty { store = (archive.create lan empty.store).1 })

abbrev guarded : Cluster
guarded = observed second (submitted first (update_network protected_lan) fresh)

abbrev served : Cluster
served = submitted second (update_status (record protected_lan { status = served_status })) guarded

abbrev Trace : Cluster → Type 0
Trace = Reach documented_lo text documented_finalizers (IsAdmitted documented_lo text)

lan-IsAdmitted : IsAdmitted documented_lo text none lan
unfolding Validator.handle Validator.check_operation Validator.check_create Validator.check_routable
    string_dec
lan-IsAdmitted = refl

fresh-Reach : Trace fresh
unfolding string_dec
fresh-Reach =
    Reach.later (Reach.later (Reach.start empty.store refl) (Step.create lan lan-IsAdmitted))
      (Step.observe first refl)

guarded-Reach : Trace guarded
unfolding string_dec
guarded-Reach =
    Reach.later
      (Reach.later fresh-Reach
        (Step.write first none _ (Memᴰ.head refl) (Sends.settles server _ settled_lem)))
      (Step.observe second refl)

served-Reach : Trace served
served-Reach = Reach.later guarded-Reach (
    Step.write second none _ (Memᴰ.head refl)
      (Sends.allocates web_pod false [] [] served_status served_status_lem))

Reach-IsTidy_example : IfStored IsTidy (stored archive served.store)
Reach-IsTidy_example =
    Reach-IsTidy documented_lo-IsLo text documented_finalizers-IsFinalizers archive-IsServer
      served-Reach

Step-Move_example :
    Move (registry (stored archive guarded.store)) (registry (stored archive served.store))
Step-Move_example =
    Step-Move documented_lo-IsLo text documented_finalizers-IsFinalizers archive-IsServer
      guarded-Reach
      (Step.write second none (update_status (record protected_lan { status = served_status }))
        (Memᴰ.head refl) (Sends.allocates web_pod false [] [] served_status served_status_lem))

-- The network after a user has deleted it, and after a write that comes too late.
abbrev dying : Cluster
dying = record served { store = (archive.delete "2023-01-01T00:00:00Z" served.store).1 }

abbrev late : Cluster
late = submitted first (update_network protected_lan) dying

late-Run :
    Run documented_lo text documented_finalizers (IsAdmitted documented_lo text) "web-0" served late
late-Run =
    Run.further (Run.further Run.stop (Step.delete "2023-01-01T00:00:00Z") refl)
      (Step.write first none (update_network protected_lan) (Memᴰ.tail (Memᴰ.head refl))
        (Sends.settles server _ settled_lem))
      refl

abbrev HoldsWeb : Cluster → Type 0
HoldsWeb = IsHolding "web-0" (address 1, "192.168.0.7")

served-HoldsWeb : HoldsWeb served
unfolding string_dec
served-HoldsWeb = record { protected = refl; has = refl }

Run-IsHolding_example : HoldsWeb late
Run-IsHolding_example =
    Run-IsHolding documented_lo-IsLo text documented_finalizers-IsFinalizers archive-IsServer
      "web-0" (address 1, "192.168.0.7") served-Reach served-HoldsWeb late-Run

-- The network that the server of the tests returns.
abbrev IsLan : OverlayNetwork → Type 0
IsLan nw = nw ≡ lan

free_address : choose_ip documented_lo text protected_lan web_pod ≡ ok (address 1)
unfolding choose_ip requested_ip fill_allocation_map first_free_host search_from contains_ip to4 inc
    string_dec
free_address = refl

-- A server that returns a network and a pod.
abbrev server_of : OverlayNetwork → Pod → Client
server_of nw pod = record server {
  get_pod = λ log ns name. ok pod;
  list_networks = λ log ns. ok (nw ∷ []);
}

abbrev Near : Cluster → Snapshot → Pod → Option String → (Option OverlayNetwork → Type 0) → Type 0
Near s snap pod removed P =
    Submits documented_lo-IsLo text documented_finalizers-IsFinalizers
      (IsAdmitted documented_lo text) archive-IsServer archive-accepts s snap
      (PodController.reconcile documented_lo text (server_of snap.network pod) documented_finalizers
        in_order "default" pod.meta.name []).1
      removed (λ t. P (stored archive t.store))

web_pod-is_wanted :
    is_wanted documented_lo text (server_of protected_lan web_pod) web_pod "lan" ≡ true
unfolding PodController.all_networks PodController.unique_networks PodController.annotation_list
    string_dec has_prefix split
web_pod-is_wanted = refl

labelled : PodController.has_overlay_label web_pod ≡ true
unfolding string_dec
labelled = refl

Reach-progress_example : Near guarded second web_pod none (λ o. book o "web-0" ≢ none)
unfolding string_dec
Reach-progress_example =
    Reach-progress documented_lo-IsLo text documented_finalizers-IsFinalizers
      (IsAdmitted documented_lo text) archive-IsServer archive-accepts guarded-Reach second refl
      (server_of protected_lan web_pod) in_order "default" "web-0" web_pod (protected_lan ∷ []) refl
      labelled refl (Memᴰ.head refl) (address 1) refl free_address web_pod-is_wanted

-- The pod when it is being deleted, and the network in which it has an address.
abbrev dying_pod : Pod
dying_pod = pod_since "web-0" (some "2023-01-01T00:00:00Z")

abbrev third : Snapshot
third = record { version = ticks 2; network = record protected_lan { status = served_status } }

dying_pod-labelled : PodController.has_overlay_label dying_pod ≡ true
unfolding string_dec
dying_pod-labelled = refl

Reach-release_example : Near served third dying_pod (some "web-0") (λ o. book o "web-0" ≡ none)
unfolding string_dec
Reach-release_example =
    Reach-release documented_lo-IsLo text documented_finalizers-IsFinalizers
      (IsAdmitted documented_lo text) archive-IsServer archive-accepts served-Reach third refl
      (server_of third.network dying_pod) in_order "default" "web-0" dying_pod (third.network ∷ [])
      refl dying_pod-labelled refl (Memᴰ.head refl) refl

Reach-IsContained_example : IfStored (IsContained text) (stored archive served.store)
Reach-IsContained_example =
    Reach-IsContained documented_lo-IsLo text documented_finalizers-IsFinalizers archive-IsServer
      served-Reach
