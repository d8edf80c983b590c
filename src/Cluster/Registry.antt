-- ===== src/Cluster/Registry.antt =====
-- The network as a registry of addresses: what the steps are for somebody who sees only which pod
-- has which address.
use kube_overlay_operator.Base.{
  String, true, Bool, if◌then◌else◌, ◌≡◌, ◌≢◌, refl, sym, ap, ◌∙◌, Option, none, some, List, [],
  ◌∷◌, map, arith, inl, inr, ◌==◌, Bool-cases, Option-cases,
}
use mathlib.Core.List.{Memᴰ}
use kube_overlay_operator.Base.Lists.{contains, Distinct}
use kube_overlay_operator.Base.Dict.{lookup}
use kube_overlay_operator.Api.{OverlayNetwork, OverlayNetworkStatus, Pod}
use kube_overlay_operator.External.Lo.{Lo, IsLo}
use kube_overlay_operator.External.Finalizers.{Finalizers, IsFinalizers}
use kube_overlay_operator.External.Client.{Write, update_network}
use kube_overlay_operator.External.Server.{
  Server, Snapshot, IsServer, stored, written, unless_finalized, since,
}
use kube_overlay_operator.Net.Text.{NetText}
use kube_overlay_operator.PodController.WellFormed.{place, ips}
use kube_overlay_operator.PodController.Deallocate.{deallocated_status-lookup}
use kube_overlay_operator.PodController.Allocate.{
  Allocations, IsAllocated, allocated_status-IsAllocated,
}
use kube_overlay_operator.OverlayController.Finalizer.{needed_write, by_deletion-needed_write}
use kube_overlay_operator.Cluster.{System, Sends, Step, Reach}
use kube_overlay_operator.Cluster.Atomic.{All-member, update-cases, delete-cases, create-cases}
use kube_overlay_operator.Cluster.Invariant.{IsTidy, Reach-IsTidySound}
use kube_overlay_operator.Cluster.Always.{IsSound}

-- The address and the pod address of a pod.
abbrev pub Book : Type 0
Book = String → Option (String × String)

-- The changes of an open registry that stays open: none, a pod gets an address that no other has, and
-- a pod loses its address.
pub data Change (before after : Book) : Type 0 where
  stays : ((j : String) → after j ≡ before j) → Change before after
  joins :
      (pod : String) (v : String × String)
      → before pod ≡ none
      → after pod ≡ some v
      → ((j : String) → pod ≢ j → after j ≡ before j)
      → ((j : String) (u : String × String) → before j ≡ some u → u.0 ≢ v.0)
      → Change before after
  leaves :
      (pod : String)
      → ((j : String) → after j ≡ (if pod == j then none else before j))
      → Change before after

-- The changes of a registry that is there or not: an open one changes, an open one is closed, one
-- is opened, in which no pod has an address, and there is none still.
pub data Move : Option Book → Option Book → Type 0 where
  changes : (before after : Book) → Change before after → Move (some before) (some after)
  closes : (before : Book) → Move (some before) none
  opens : (after : Book) → ((j : String) → after j ≡ none) → Move none (some after)
  missing : Move none none

-- Without a network, no pod has an address.
abbrev pub book : Option OverlayNetwork → Book
book none j = none
book (some nw) j = lookup j (map place nw.status.allocations)

-- The registry of a network that is stored or not.
abbrev pub registry : Option OverlayNetwork → Option Book
registry none = none
registry (some nw) = some (book (some nw))

same-Move : (o : Option OverlayNetwork) → Move (registry o) (registry o)
same-Move none = Move.missing
same-Move (some nw) = Move.changes (book (some nw)) (book (some nw)) (Change.stays (λ j. refl))

lookup-ips :
    (j : String) (u : String × String) (xs : Allocations)
    → lookup j (map place xs) ≡ some u
    → contains (ips xs) u.0 ≡ true
lookup-ips j u [] e = absurd (ground arith)
lookup-ips j u (x ∷ xs) e = ground (arith, lookup-ips j u xs)

lookup-one_pod :
    (j k : String) (u v : String × String) (xs : Allocations)
    → Distinct (ips xs)
    → lookup j (map place xs) ≡ some u
    → lookup k (map place xs) ≡ some v
    → u.0 ≡ v.0
    → j ≡ k
lookup-one_pod j k u v [] d e f same = absurd (ground arith)
lookup-one_pod j k u v (x ∷ xs) d e f same = elim (Bool-cases (x.pod_name == j)) [
  | inl at_j ↦ elim (Bool-cases (x.pod_name == k)) [
    | inl at_k ↦ ground arith
    | inr past_k ↦ ground (arith, lookup-ips k v xs)
  ]
  | inr past_j ↦ elim (Bool-cases (x.pod_name == k)) [
    | inl at_k ↦ ground (arith, lookup-ips j u xs)
    | inr past_k ↦ lookup-one_pod j k u v xs d.1 (ground arith) (ground arith) same
  ]
]

IsAllocated-Change :
    (pod : Pod) (is_router : Bool) (before after : OverlayNetworkStatus)
    → IsAllocated pod is_router before after
    → Change
        (λ j. lookup j (map place before.allocations))
        (λ j. lookup j (map place after.allocations))
IsAllocated-Change pod is_router before after a =
    let name = pod.meta.name in
    elim (Option-cases (lookup name (map place before.allocations))) [
      | inr (v, there) ↦ Change.stays (λ j. elim (Bool-cases (name == j)) [
        | inl same ↦ ground (arith, a.kept name v there)
        | inr other ↦ a.no_other j (ground arith)
      ])
      | inl absent ↦ elim (Option-cases (lookup name (map place after.allocations))) [
        | inl lacks ↦ absurd (a.has_place lacks)
        | inr (v, has) ↦ Change.joins name v absent has a.no_other (λ j u e same.
            let one =
              lookup-one_pod j name u v after.allocations a.well_formed.one_per_ip (a.kept j u e)
                has same in
            ground
              (arith, sym absent ∙ ap (λ k. lookup k (map place before.allocations)) (sym one) ∙ e))
      ]
    ]

unless_finalized-Move :
    (nw nw' : OverlayNetwork) (time : Option String) (fs : List String)
    → ((j : String) → book (some nw') j ≡ book (some nw) j)
    → Move (registry (some nw)) (registry (unless_finalized nw' time fs))
unless_finalized-Move nw nw' none fs same = Move.changes _ _ (Change.stays same)
unless_finalized-Move nw nw' (some time) [] same = Move.closes (book (some nw))
unless_finalized-Move nw nw' (some time) (f ∷ fs) same = Move.changes _ _ (Change.stays same)

-- A write of the whole network, which leaves its status.
abbrev IsUpdate : Write → Type 0
IsUpdate (update_network nw) = Unit
IsUpdate _ = ⊥

needed_write-IsUpdate :
    (time : Option String) (nw : OverlayNetwork) (w : Write)
    → needed_write time nw ≡ some w
    → IsUpdate w
needed_write-IsUpdate none nw w e = ground arith
needed_write-IsUpdate (some time) nw w e = ground arith

written-Move :
    (nw : OverlayNetwork) (w : Write)
    → IsUpdate w
    → Move (registry (some nw)) (registry (written nw w))
written-Move nw (Write.update_network nw') h =
    unless_finalized-Move nw _ nw.meta.deletion_timestamp nw'.meta.finalizers (λ j. refl)
written-Move nw (Write.update_status nw') h = absurd h
written-Move nw (Write.update_pod pod) h = absurd h
written-Move nw (Write.create_service_account a) h = absurd h
written-Move nw (Write.create_secret s) h = absurd h
written-Move nw (Write.create_role_binding r) h = absurd h

module _ {lo : Lo} (lo_laws : IsLo lo) (net : NetText) {fz : Finalizers}
    (fz_laws : IsFinalizers fz) where
  Sends-Move :
      (nw : OverlayNetwork) {removed : Option String} {w : Write}
      → IsTidy nw
      → Sends lo net fz nw removed w
      → Move (registry (some nw)) (registry (written nw w))
  Sends-Move nw tidy (Sends.allocates pod is_router extra_networks extra_routers s made) =
      Move.changes _ _ (
        IsAllocated-Change pod is_router nw.status s (
          allocated_status-IsAllocated lo_laws net nw pod is_router extra_networks extra_routers s
            tidy made))
  Sends-Move nw tidy (Sends.deallocates c pod unwanted) =
      Move.changes _ _ (Change.leaves pod.meta.name (deallocated_status-lookup lo_laws net nw pod))
  Sends-Move nw tidy (Sends.settles c w sent) = written-Move nw w (
      needed_write-IsUpdate nw.meta.deletion_timestamp nw w
        (by_deletion-needed_write fz_laws c nw w sent))

  module _ {sv : Server} (laws : IsServer sv) where
    updated-Move :
        (s : System sv) (snap : Snapshot) (w : Write)
        → Memᴰ snap s.seen
        → IsSound laws IsTidy s
        → Move (registry (some snap.network)) (registry (written snap.network w))
        → Move
            (registry (stored sv s.store))
            (registry (stored sv (sv.update snap.version w s.store).1))
    updated-Move s snap w m sound move =
        elim (update-cases laws s.store snap w (All-member (laws.Had s.store) m sound.known)) [
          | inl same ↦ rw same (same-Move _)
          | inr (current, after) ↦ rw (current, after) move
        ]

    module _ {Admits : Option OverlayNetwork → OverlayNetwork → Type 0} where
      sound_step-Move :
          {s t : System sv} {removed : Option String}
          → IsSound laws IsTidy s
          → Step lo net fz Admits s removed t
          → Move (registry (stored sv s.store)) (registry (stored sv t.store))
      sound_step-Move sound (Step.observe snap read) = same-Move _
      sound_step-Move {s} sound (Step.write snap removed w m sends) =
          updated-Move s snap w m sound (
            Sends-Move snap.network (All-member (λ snap. IsTidy snap.network) m sound.before) sends)
      sound_step-Move {s} sound (Step.edit snap nw m same admitted) =
          updated-Move s snap (update_network nw) m sound
            (written-Move snap.network (update_network nw) tt)
      sound_step-Move {s} sound (Step.create nw admitted) = elim (create-cases laws s.store nw) [
        | inl same ↦ rw same (same-Move _)
        | inr (absent, after) ↦ rw (absent, after) (Move.opens _ (λ j. refl))
      ]
      sound_step-Move {s} sound (Step.delete time) = elim (delete-cases laws s.store time) [
        | inl same ↦ rw same (same-Move _)
        | inr (nw, before, after) ↦
            rw (before, after)
              (unless_finalized-Move nw
                (record nw {
                  meta = record (nw.meta) {
                    deletion_timestamp = since time nw.meta.deletion_timestamp;
                  };
                })
                _ nw.meta.finalizers (λ j. refl))
      ]

      -- In any interleaving, each step of the controllers, the users and the server is one of a
      -- registry of addresses that is there while the network is stored. Of a network that stays
      -- stored, no pod's address changes but that one pod gets an address that no other pod has, or
      -- one pod loses its address. Otherwise a stored network is not stored any more, a new one is
      -- stored, in which no pod has an address, or there is none before and after.
      pub Step-Move :
          {s t : System sv} {removed : Option String}
          → Reach lo net fz Admits s
          → Step lo net fz Admits s removed t
          → Move (registry (stored sv s.store)) (registry (stored sv t.store))
      Step-Move reach = sound_step-Move (Reach-IsTidySound lo_laws net fz_laws laws reach)
