-- ===== src/Tests/Server.antt =====
-- An API server that keeps all networks that there were, each at the version of its place.
use Prim.Native.String.{len}
use text.Mathlib.TextPositions.{len-append}
use mathlib.Core.Option
use kube_overlay_operator.Base.{
  ℕ, zero, suc, ◌<◌, String, ◌<>◌, Bool, true, false, ◌≡◌, refl, sym, ap, ◌∙◌, ◌⊎◌, Option, none,
  some, List, [], ◌∷◌, inl, inr, arith, ◌==◌, if◌then◌else◌, Bool-cases,
}
use kube_overlay_operator.Base.Lists.{length}
use kube_overlay_operator.Api.{OverlayNetwork}
use kube_overlay_operator.External.Client.{ApiError, Write, not_found, already_exists, other_error}
use kube_overlay_operator.External.Server.{
  Server, Snapshot, IsServer, IsRequest, stored, written, deleted, created,
}

pub record Store : Type 0 where
  pub history : List OverlayNetwork
  pub present : Bool

-- A text of the given length.
abbrev pub ticks : ℕ → String
ticks zero = ""
ticks (suc n) = "i" <> ticks n

abbrev pub latest : Bool → List OverlayNetwork → Option Snapshot
latest false nws = none
latest true [] = none
latest true (nw ∷ nws) = some (record { version = ticks (length nws); network = nw })

-- The store after the network has become another one, or has gone.
abbrev pub replace : Store → Option OverlayNetwork → Store
replace st none = record st { present = false }
replace st (some nw) = record { history = nw ∷ st.history; present = true }

abbrev pub update_at : Option Snapshot → String → Write → Store → Option ApiError × Store
update_at none v w st = (some not_found, st)
update_at (some s) v w st =
    if s.version == v
    then (none, replace st (written s.network w))
    else (some (other_error "conflict"), st)

abbrev pub create_at : Option Snapshot → OverlayNetwork → Store → Option ApiError × Store
create_at none nw st = (none, replace st (some (created nw)))
create_at (some s) nw st = (some already_exists, st)

abbrev pub delete_at : Option Snapshot → String → Store → Option ApiError × Store
delete_at none time st = (some not_found, st)
delete_at (some s) time st = (none, replace st (deleted time s.network))

abbrev pub archive : Server
archive = record {
  Store = Store;
  read = λ st. latest st.present st.history;
  update = λ v w st. update_at (latest st.present st.history) v w st;
  create = λ nw st. create_at (latest st.present st.history) nw st;
  delete = λ time st. delete_at (latest st.present st.history) time st;
}

len-ticks : (n : ℕ) → len (ticks n) ≡ n
len-ticks zero = refl
len-ticks (suc n) = omega (arith, len-append "i" (ticks n), len-ticks n)

-- The snapshots of a history.
abbrev HadIn : List OverlayNetwork → Snapshot → Type 0
HadIn [] s = ⊥
HadIn (nw ∷ nws) s = (s ≡ (record { version = ticks (length nws); network = nw })) ⊎ HadIn nws s

HadIn-len : (nws : List OverlayNetwork) (s : Snapshot) → HadIn nws s → len s.version < length nws
HadIn-len [] s h = elim h [ ]
HadIn-len (nw ∷ nws) s (inl here) =
    omega (arith, ap (λ (x : Snapshot). len x.version) here, len-ticks (length nws))
HadIn-len (nw ∷ nws) s (inr there) = omega (arith, HadIn-len nws s there)

HadIn-version :
    (nws : List OverlayNetwork) (s t : Snapshot)
    → HadIn nws s
    → HadIn nws t
    → s.version ≡ t.version
    → s ≡ t
HadIn-version [] s t h k e = elim h [ ]
HadIn-version (nw ∷ nws) s t (inl a) (inl b) e = a ∙ sym b
HadIn-version (nw ∷ nws) s t (inl a) (inr b) e = absurd (
    omega (
      arith,
      ap (λ (x : Snapshot). len x.version) a,
      len-ticks (length nws),
      ap len e,
      HadIn-len nws t b,
    ))
HadIn-version (nw ∷ nws) s t (inr a) (inl b) e = absurd (
    omega (
      arith,
      ap (λ (x : Snapshot). len x.version) b,
      len-ticks (length nws),
      ap len e,
      HadIn-len nws s a,
    ))
HadIn-version (nw ∷ nws) s t (inr a) (inr b) e = HadIn-version nws s t a b e

HadIn-replace :
    (st : Store) (o : Option OverlayNetwork) (s : Snapshot)
    → HadIn st.history s
    → HadIn (replace st o).history s
HadIn-replace st none s h = h
HadIn-replace st (some nw) s h = inr h

stored-replace : (st : Store) (o : Option OverlayNetwork) → stored archive (replace st o) ≡ o
stored-replace st none = refl
stored-replace st (some nw) = refl

latest-HadIn :
    (present : Bool) (nws : List OverlayNetwork) (s : Snapshot)
    → latest present nws ≡ some s
    → HadIn nws s
latest-HadIn false nws s e = absurd (ground arith)
latest-HadIn true [] s e = absurd (ground arith)
latest-HadIn true (nw ∷ nws) s e = inl (cc e)

update_at-HadIn :
    (o : Option Snapshot) (v : String) (w : Write) (st : Store) (s : Snapshot)
    → HadIn st.history s
    → HadIn (update_at o v w st).1.history s
update_at-HadIn none v w st s h = h
update_at-HadIn (some t) v w st s h = elim (Bool-cases (t.version == v)) [
  | inl same ↦ rw same (HadIn-replace st (written t.network w) s h)
  | inr other ↦ rw other h
]

update_at-IsRequest :
    (o : Option Snapshot) (v : String) (w : Write) (st : Store)
    → archive.read st ≡ o
    → IsRequest archive st (update_at o v w st) (λ nw. written nw w)
update_at-IsRequest none v w st e = refl
update_at-IsRequest (some t) v w st e = elim (Bool-cases (t.version == v)) [
  | inl same ↦ rw same (
    t.network,
    ap (Option.map (λ (s : Snapshot). s.network)) e,
    stored-replace st (written t.network w),
  )
  | inr other ↦ rw other refl
]

update_at-version :
    (o : Option Snapshot) (v : String) (w : Write) (st : Store)
    → (update_at o v w st).0 ≡ none
    → (nw : OverlayNetwork) × (o ≡ some (record { version = v; network = nw }))
update_at-version none v w st e = absurd (ground arith)
update_at-version (some t) v w st e = elim (Bool-cases (t.version == v)) [
  | inl same ↦ (t.network, ap (λ x. some (record t { version = x })) (ground (arith, same)))
  | inr other ↦ absurd (ground (arith, other, e))
]

create_at-HadIn :
    (o : Option Snapshot) (nw : OverlayNetwork) (st : Store) (s : Snapshot)
    → HadIn st.history s
    → HadIn (create_at o nw st).1.history s
create_at-HadIn none nw st s h = inr h
create_at-HadIn (some t) nw st s h = h

delete_at-HadIn :
    (o : Option Snapshot) (time : String) (st : Store) (s : Snapshot)
    → HadIn st.history s
    → HadIn (delete_at o time st).1.history s
delete_at-HadIn none time st s h = h
delete_at-HadIn (some t) time st s h = HadIn-replace st (deleted time t.network) s h

delete_at-IsRequest :
    (o : Option Snapshot) (time : String) (st : Store)
    → archive.read st ≡ o
    → IsRequest archive st (delete_at o time st) (deleted time)
delete_at-IsRequest none time st e = refl
delete_at-IsRequest (some t) time st e = (
  t.network,
  ap (Option.map (λ (s : Snapshot). s.network)) e,
  stored-replace st (deleted time t.network),
)

create_at-cases :
    (o : Option Snapshot) (nw : OverlayNetwork) (st : Store)
    → archive.read st ≡ o
    → (archive.read (create_at o nw st).1 ≡ archive.read st)
      ⊎ ((archive.read st ≡ none) × (stored archive (create_at o nw st).1 ≡ some (created nw)))
create_at-cases none nw st e = inr (e, refl)
create_at-cases (some t) nw st e = inl refl

pub archive-IsServer : IsServer archive
archive-IsServer = record {
  Had = λ st. HadIn st.history;
  read-Had = λ st. latest-HadIn st.present st.history;
  Had-version = λ st. HadIn-version st.history;
  Had-update = λ st v w. update_at-HadIn (archive.read st) v w st;
  Had-create = λ st nw. create_at-HadIn (archive.read st) nw st;
  Had-delete = λ st time. delete_at-HadIn (archive.read st) time st;
  update_lem = λ st v w. update_at-IsRequest (archive.read st) v w st refl;
  update-version = λ st v w. update_at-version (archive.read st) v w st;
  delete_lem = λ st time. delete_at-IsRequest (archive.read st) time st refl;
  create_lem = λ st nw. create_at-cases (archive.read st) nw st refl;
}

version_of : (s t : Snapshot) → s ≡ t → s.version ≡ t.version
version_of s t e = ap (λ (x : Snapshot). x.version) e

update_at-accepts :
    (o : Option Snapshot) (snap : Snapshot) (w : Write) (st : Store)
    → o ≡ some snap
    → (update_at o snap.version w st).0 ≡ none
update_at-accepts none snap w st e = absurd (ground arith)
update_at-accepts (some t) snap w st e = ground (arith, version_of t snap (cc e))

pub archive-accepts :
    (st : Store) (snap : Snapshot) (w : Write)
    → archive.read st ≡ some snap
    → (archive.update snap.version w st).0 ≡ none
archive-accepts st snap w e = update_at-accepts (archive.read st) snap w st e
