-- ===== src/Cluster/Always.antt =====
-- Properties of the stored network that all steps keep.
use kube_overlay_operator.Base.{String, ap, subst, Option, none, some, List, [], ◌∷◌, inl, inr}
use mathlib.Core.List.{Memᴰ}
use mathlib.Core.Option
use kube_overlay_operator.Base.Lists.{All}
use kube_overlay_operator.Api.{OverlayNetwork}
use kube_overlay_operator.External.Lo.{Lo}
use kube_overlay_operator.External.Finalizers.{Finalizers}
use kube_overlay_operator.External.Client.{Write, update_network}
use kube_overlay_operator.External.Server.{
  Server, Snapshot, IsServer, stored, written, unless_finalized, deleted, created,
}
use kube_overlay_operator.Net.Text.{NetText}
use kube_overlay_operator.Cluster.{System, Sends, Step, Reach}
use kube_overlay_operator.Cluster.Atomic.{
  All-member, AreKnown, update-cases, delete-cases, create-cases, Step-AreKnown,
}

-- The network has the property, if there is one.
abbrev pub IfStored : (OverlayNetwork → Type 0) → Option OverlayNetwork → Type 0
IfStored P none = Unit
IfStored P (some nw) = P nw

pub unless_finalized-IfStored :
    (P : OverlayNetwork → Type 0) (nw : OverlayNetwork) (time : Option String) (fs : List String)
    → P nw
    → IfStored P (unless_finalized nw time fs)
unless_finalized-IfStored P nw none fs h = h
unless_finalized-IfStored P nw (some time) [] h = tt
unless_finalized-IfStored P nw (some time) (f ∷ fs) h = h

-- The property of the stored network and of those that were seen.
pub record IsSound {sv : Server} (laws : IsServer sv) (P : OverlayNetwork → Type 0) (s : System sv)
    : Type 0 where
  pub known : AreKnown laws s
  pub now : IfStored P (stored sv s.store)
  pub before : All (λ snap. P snap.network) s.seen

module _ (lo : Lo) (net : NetText) (fz : Finalizers)
    (Admits : Option OverlayNetwork → OverlayNetwork → Type 0) (P : OverlayNetwork → Type 0) where
  -- Each change of a network keeps the property.
  pub record AllKeep : Type 0 where
    pub sends :
        (nw : OverlayNetwork) {removed : Option String} {w : Write}
        → P nw
        → Sends lo net fz nw removed w
        → IfStored P (written nw w)
    pub edits :
        (old nw : OverlayNetwork)
        → P old
        → Admits (some old) nw
        → IfStored P (written old (update_network nw))
    pub creates : (nw : OverlayNetwork) → Admits none nw → P (created nw)
    pub deletes : (time : String) (nw : OverlayNetwork) → P nw → IfStored P (deleted time nw)

  module _ (keep : AllKeep) {sv : Server} (laws : IsServer sv) where
    updated-IfStored :
        (s : System sv) (snap : Snapshot) (w : Write)
        → IsSound laws P s
        → Memᴰ snap s.seen
        → (P snap.network → IfStored P (written snap.network w))
        → IfStored P (stored sv (sv.update snap.version w s.store).1)
    updated-IfStored s snap w h m kept =
        elim (update-cases laws s.store snap w (All-member (laws.Had s.store) m h.known)) [
          | inl same ↦ rw same h.now
          | inr (current, after) ↦ rw after (kept (All-member (λ snap. P snap.network) m h.before))
        ]

    Step-now :
        {s t : System sv} {removed : Option String}
        → Step lo net fz Admits s removed t
        → IsSound laws P s
        → IfStored P (stored sv t.store)
    Step-now (Step.observe snap read) h = h.now
    Step-now {s} (Step.write snap removed w m sends) h =
        updated-IfStored s snap w h m (λ p. keep.sends snap.network p sends)
    Step-now {s} (Step.edit snap nw m same admitted) h =
        updated-IfStored s snap (update_network nw) h m (λ p. keep.edits snap.network nw p admitted)
    Step-now {s} (Step.create nw admitted) h = elim (create-cases laws s.store nw) [
      | inl same ↦ rw same h.now
      | inr (absent, after) ↦ rw after (keep.creates nw admitted)
    ]
    Step-now {s} (Step.delete time) h = elim (delete-cases laws s.store time) [
      | inl same ↦ rw same h.now
      | inr (nw, before, after) ↦ rw after (keep.deletes time nw (rw before at h.now))
    ]

    Step-before :
        {s t : System sv} {removed : Option String}
        → Step lo net fz Admits s removed t
        → IsSound laws P s
        → All (λ (snap : Snapshot). P snap.network) t.seen
    Step-before {s} (Step.observe snap read) h =
        (subst (IfStored P) (ap (Option.map (λ (s : Snapshot). s.network)) read) h.now, h.before)
    Step-before (Step.write snap removed w m sends) h = h.before
    Step-before (Step.edit snap nw m same admitted) h = h.before
    Step-before (Step.create nw admitted) h = h.before
    Step-before (Step.delete time) h = h.before

    pub Step-IsSound :
        {s t : System sv} {removed : Option String}
        → Step lo net fz Admits s removed t
        → IsSound laws P s
        → IsSound laws P t
    Step-IsSound step h = record {
      known = Step-AreKnown laws step h.known;
      now = Step-now step h;
      before = Step-before step h;
    }

    pub Reach-IsSound : {s : System sv} → Reach lo net fz Admits s → IsSound laws P s
    Reach-IsSound (Reach.start st absent) = record { known = tt; now = rw absent tt; before = tt }
    Reach-IsSound (Reach.later reach step) = Step-IsSound step (Reach-IsSound reach)
