-- ===== src/Cluster/Atomic.antt =====
-- Updates at a version: one that is accepted replaces the network that it was computed from.
use kube_overlay_operator.Base.{
  String, ◌≡◌, refl, sym, ap, subst, ◌∙◌, Option, none, some, List, ◌⊎◌, inl, inr, arith,
}
use mathlib.Core.List.{Memᴰ}
use mathlib.Core.Option
use kube_overlay_operator.Base.Lists.{All, All-map}
use kube_overlay_operator.Api.{OverlayNetwork}
use kube_overlay_operator.External.Lo.{Lo}
use kube_overlay_operator.External.Finalizers.{Finalizers}
use kube_overlay_operator.External.Client.{ApiError, Write}
use kube_overlay_operator.External.Server.{
  Server, Snapshot, IsServer, IsRequest, stored, written, deleted, created,
}
use kube_overlay_operator.Net.Text.{NetText}
use kube_overlay_operator.Cluster.{System, Step}

pub All-member {ℓ κ} :
    {A : Type ℓ} (P : A → Type κ) {x : A} {xs : List A} → Memᴰ x xs → All P xs → P x
All-member P (Memᴰ.head same) h = subst P (sym same) h.0
All-member P (Memᴰ.tail m) h = All-member P m h.1

module _ {sv : Server} (laws : IsServer sv) where
  -- Everything seen was there.
  abbrev pub AreKnown : System sv → Type 0
  AreKnown s = All (laws.Had s.store) s.seen

  request-cases :
      (st : sv.Store) (r : Option ApiError × sv.Store)
      (change : OverlayNetwork → Option OverlayNetwork)
      → IsRequest sv st r change
      → (stored sv r.1 ≡ stored sv st)
        ⊎ ((r.0 ≡ none)
            × ((nw : OverlayNetwork) × (stored sv st ≡ some nw) × (stored sv r.1 ≡ change nw)))
  request-cases st (some e, st') change h = inl (ap (Option.map (λ (s : Snapshot). s.network)) h)
  request-cases st (none, st') change h = inr (refl, h)

  -- An update from a snapshot that was there leaves the network alone, or the snapshot is what is stored, and the network becomes what the write makes of it.
  pub update-cases :
      (st : sv.Store) (snap : Snapshot) (w : Write)
      → laws.Had st snap
      → (stored sv (sv.update snap.version w st).1 ≡ stored sv st)
        ⊎ ((stored sv st ≡ some snap.network)
            × (stored sv (sv.update snap.version w st).1 ≡ written snap.network w))
  update-cases st snap w had =
      elim (request-cases st (sv.update snap.version w st) (λ nw. written nw w)
        (laws.update_lem st snap.version w)) [
          | inl same ↦ inl same
          | inr (accepted, (nw, before, after)) ↦
              let (nw', at) = laws.update-version st snap.version w accepted in
              let current = laws.Had-version st snap _ had (laws.read-Had st _ at) refl in
              let now =
                ap (Option.map (λ (s : Snapshot). s.network)) (at ∙ ap some (sym current)) in
              inr (now, cc (before, now, after))
        ]

  pub delete-cases :
      (st : sv.Store) (time : String)
      → (stored sv (sv.delete time st).1 ≡ stored sv st)
        ⊎ ((nw : OverlayNetwork) × (stored sv st ≡ some nw)
            × (stored sv (sv.delete time st).1 ≡ deleted time nw))
  delete-cases st time =
      elim (request-cases st (sv.delete time st) (deleted time) (laws.delete_lem st time)) [
        | inl same ↦ inl same
        | inr (accepted, effect) ↦ inr effect
      ]

  pub create-cases :
      (st : sv.Store) (nw : OverlayNetwork)
      → (stored sv (sv.create nw st).1 ≡ stored sv st)
        ⊎ ((stored sv st ≡ none) × (stored sv (sv.create nw st).1 ≡ some (created nw)))
  create-cases st nw = elim (laws.create_lem st nw) [
    | inl same ↦ inl (ap (Option.map (λ (s : Snapshot). s.network)) same)
    | inr (absent, after) ↦ inr (ap (Option.map (λ (s : Snapshot). s.network)) absent, after)
  ]

  pub Step-AreKnown :
      {lo : Lo} {net : NetText} {fz : Finalizers}
      {Admits : Option OverlayNetwork → OverlayNetwork → Type 0} {s t : System sv}
      {removed : Option String}
      → Step lo net fz Admits s removed t
      → AreKnown s
      → AreKnown t
  Step-AreKnown (Step.observe snap read) k = (laws.read-Had _ snap read, k)
  Step-AreKnown (Step.write snap removed w m sends) k = All-map _ (laws.Had-update _ _ _) k
  Step-AreKnown (Step.edit snap nw m same admitted) k = All-map _ (laws.Had-update _ _ _) k
  Step-AreKnown (Step.create nw admitted) k = All-map _ (laws.Had-create _ _) k
  Step-AreKnown (Step.delete time) k = All-map _ (laws.Had-delete _ _) k

  accepted-request :
      (st : sv.Store) (r : Option ApiError × sv.Store)
      (change : OverlayNetwork → Option OverlayNetwork) (nw : OverlayNetwork)
      → IsRequest sv st r change
      → r.0 ≡ none
      → stored sv st ≡ some nw
      → stored sv r.1 ≡ change nw
  accepted-request st (some e, st') change nw h accepted now = absurd (ground arith)
  accepted-request st (none, st') change nw (nw', before, after) accepted now =
      cc (before, now, after)

  -- An update that is accepted has its effect.
  pub update-accepted :
      (st : sv.Store) (snap : Snapshot) (w : Write)
      → sv.read st ≡ some snap
      → (sv.update snap.version w st).0 ≡ none
      → stored sv (sv.update snap.version w st).1 ≡ written snap.network w
  update-accepted st snap w read accepted =
      accepted-request st (sv.update snap.version w st) (λ nw. written nw w) snap.network
        (laws.update_lem st snap.version w) accepted
        (ap (Option.map (λ (s : Snapshot). s.network)) read)
