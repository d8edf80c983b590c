-- ===== src/External/Server.antt =====
-- The API server as it keeps one network: requests carry the version of the network that they were
-- made from, and the server refuses those that another change has overtaken.
use kube_overlay_operator.Base.{String, ◌≡◌, Option, none, some, List, [], ◌∷◌, ◌⊎◌}
use mathlib.Core.Option
use kube_overlay_operator.Api.{OverlayNetwork, OverlayNetworkStatus}
use kube_overlay_operator.External.Client.{ApiError, Write, update_status, update_network}

-- The network at one of its resource versions.
pub record Snapshot : Type 0 where
  pub version : String
  pub network : OverlayNetwork

-- Each request gives the error, if any, and the store after it. A deletion brings the time.
pub record Server : Type 1 where
  pub Store : Type 0
  pub read : Store → Option Snapshot
  pub update : String → Write → Store → Option ApiError × Store
  pub create : OverlayNetwork → Store → Option ApiError × Store
  pub delete : String → Store → Option ApiError × Store

abbrev pub empty_status : OverlayNetworkStatus
empty_status = record { allocations = []; routers = []; optional_routers = [] }

-- A network that is being deleted stays while it has finalizers.
abbrev pub unless_finalized : OverlayNetwork → Option String → List String → Option OverlayNetwork
unless_finalized nw none fs = some nw
unless_finalized nw (some time) [] = none
unless_finalized nw (some time) (f ∷ fs) = some nw

-- What a write leaves of a network: the status has requests of its own, and the deletion timestamp
-- is the server's.
abbrev pub written : OverlayNetwork → Write → Option OverlayNetwork
written nw (update_status nw') = some (record nw { status = nw'.status })
written nw (update_network nw') =
    let time = nw.meta.deletion_timestamp in
    let meta = record (nw'.meta) { deletion_timestamp = time } in
    unless_finalized (record nw' { meta = meta; status = nw.status }) time nw'.meta.finalizers
written nw _ = some nw

-- A deletion sets the timestamp, once.
abbrev pub since : String → Option String → Option String
since time none = some time
since time (some before) = some before

abbrev pub deleted : String → OverlayNetwork → Option OverlayNetwork
deleted time nw =
    let at = since time nw.meta.deletion_timestamp in
    let meta = record (nw.meta) { deletion_timestamp = at } in
    unless_finalized (record nw { meta = meta }) at nw.meta.finalizers

abbrev pub created : OverlayNetwork → OverlayNetwork
created nw = record nw {
  meta = record (nw.meta) { deletion_timestamp = none };
  status = empty_status;
}

module _ (sv : Server) where
  -- The network that is stored, without its version.
  abbrev pub stored : sv.Store → Option OverlayNetwork
  stored st = Option.map (λ (s : Snapshot). s.network) (sv.read st)

  -- A request was refused and changed nothing, or it was accepted with an effect.
  abbrev pub IsRequest :
      sv.Store → Option ApiError × sv.Store → (OverlayNetwork → Option OverlayNetwork) → Type 0
  IsRequest st (some e, st') change = sv.read st' ≡ sv.read st
  IsRequest st (none, st') change =
      (nw : OverlayNetwork) × (stored st ≡ some nw) × (stored st' ≡ change nw)

-- What Kubernetes documents of objects and their versions. `Had` holds of the snapshots that there
-- were up to a store.
pub record IsServer (sv : Server) : Type 1 where
  pub Had : sv.Store → Snapshot → Type 0
  pub read-Had : (st : sv.Store) (s : Snapshot) → sv.read st ≡ some s → Had st s
  -- A version names one state of the object.
  pub Had-version :
      (st : sv.Store) (s t : Snapshot) → Had st s → Had st t → s.version ≡ t.version → s ≡ t
  pub Had-update :
      (st : sv.Store) (v : String) (w : Write) (s : Snapshot)
      → Had st s
      → Had (sv.update v w st).1 s
  pub Had-create :
      (st : sv.Store) (nw : OverlayNetwork) (s : Snapshot) → Had st s → Had (sv.create nw st).1 s
  pub Had-delete :
      (st : sv.Store) (time : String) (s : Snapshot) → Had st s → Had (sv.delete time st).1 s
  pub update_lem :
      (st : sv.Store) (v : String) (w : Write)
      → IsRequest sv st (sv.update v w st) (λ nw. written nw w)
  -- An update is accepted at the version that is stored only.
  pub update-version :
      (st : sv.Store) (v : String) (w : Write)
      → (sv.update v w st).0 ≡ none
      → (nw : OverlayNetwork) × (sv.read st ≡ some (record { version = v; network = nw }))
  pub delete_lem :
      (st : sv.Store) (time : String) → IsRequest sv st (sv.delete time st) (deleted time)
  -- A creation is accepted where there is no network only.
  pub create_lem :
      (st : sv.Store) (nw : OverlayNetwork)
      → (sv.read (sv.create nw st).1 ≡ sv.read st)
        ⊎ ((sv.read st ≡ none) × (stored sv (sv.create nw st).1 ≡ some (created nw)))
