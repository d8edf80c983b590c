-- ===== src/PodController/Undo.antt =====
-- The removal of a pod after its allocation.
use kube_overlay_operator.Base.{
  String, Bool, true, false, not, ◌≡◌, refl, sym, ap, subst, ◌∙◌, List, [], ◌∷◌, ◌++◌, ◌==◌, arith,
  Bool-cases, inl, inr, if◌then◌else◌,
}
use kube_overlay_operator.Base.Strings.{string_dec}
use kube_overlay_operator.Base.Dict.{Dict, insert, get, map_entries, lookup-insert}
use kube_overlay_operator.Base.Lists.{any, contains, filter_idem}
use kube_overlay_operator.Base.Result.{ok, OnOk}
use kube_overlay_operator.Api.{
  OverlayNetwork, OverlayNetworkStatus, OverlayNetworkIpAllocation, Pod,
}
use kube_overlay_operator.External.Lo.{Lo, IsLo, documented_lo, transport_lo}
use kube_overlay_operator.Net.Text.{NetText}
use kube_overlay_operator.PodController.Allocation.{
  record_extra_routers, drop_other_routers, record_router, status_with, allocated_status,
  deallocated_status,
}
use kube_overlay_operator.PodController.Allocate.{allocated_status-eq-ok}
use kube_overlay_operator.PodController.Ensure.{
  IsEnsured, ensure_allocation-IsEnsured, rest_of-snoc,
}
use kube_overlay_operator.PodController.WellFormed.{rest_of}

-- The same allocations and routers, and at each name the same optional routers.
pub record AreAlike (s t : OverlayNetworkStatus) : Type 0 where
  pub allocations : s.allocations ≡ t.allocations
  pub routers : s.routers ≡ t.routers
  pub optional : (k : String) → get [] k s.optional_routers ≡ get [] k t.optional_routers

abbrev Routers : Type 0
Routers = Dict (List OverlayNetworkIpAllocation)

get-map_entries :
    (f : String → List OverlayNetworkIpAllocation → List OverlayNetworkIpAllocation) (k : String)
    (m : Routers)
    → f k [] ≡ []
    → get [] k (map_entries f m) ≡ f k (get [] k m)
get-map_entries f k [] h = sym h
get-map_entries f k ((j, v) ∷ m) h = ground (arith, get-map_entries f k m h, ap (λ n. f n v))

rest_of-record_router :
    (net : NetText) (pod : Pod) (is_router : Bool) (a : OverlayNetworkIpAllocation)
    (xs : List OverlayNetworkIpAllocation)
    → a.pod_name ≡ pod.meta.name
    → rest_of pod.meta.name (record_router documented_lo net pod is_router a xs)
      ≡ rest_of pod.meta.name xs
rest_of-record_router net pod true a xs named =
    ground (arith, subst (λ n. rest_of n (xs ++ a ∷ []) ≡ rest_of n xs) named (rest_of-snoc xs a))
rest_of-record_router net pod false a xs named =
    filter_idem (λ n. not (n.pod_name == pod.meta.name)) xs

get-insert :
    (j k : String) (v : List OverlayNetworkIpAllocation) (m : Routers)
    → get [] j (insert k v m) ≡ (if k == j then v else get [] j m)
get-insert j k v m = ground (arith, lookup-insert j k v m)

rest_of-record_extra_routers :
    (net : NetText) (a : OverlayNetworkIpAllocation) (extra : List String) (m : Routers)
    (k : String)
    → rest_of a.pod_name (get [] k (record_extra_routers documented_lo net a extra m))
      ≡ rest_of a.pod_name (get [] k m)
unfolding record_extra_routers
rest_of-record_extra_routers net a [] m k = refl
rest_of-record_extra_routers net a (e ∷ extra) m k =
    elim (Bool-cases (any (λ n. n.pod_name == a.pod_name) (get [] e m))) [
      | inl there ↦ rw there (rest_of-record_extra_routers net a extra m k)
      | inr absent ↦ rw absent (
          rest_of-record_extra_routers net a extra (insert e (get [] e m ++ a ∷ []) m) k
          ∙ ap (rest_of a.pod_name) (get-insert k e (get [] e m ++ a ∷ []) m)
          ∙ elim (string_dec e k) [
            | yes p ↦ rw p (ground (arith, rest_of-snoc (get [] k m) a))
            | no q ↦ ground (arith, q)
          ])
    ]

if_same : {A : Type 0} (b : Bool) (x : A) → (if b then x else x) ≡ x
if_same true x = refl
if_same false x = refl

rest_of-if :
    (b : Bool) (name : String) (xs : List OverlayNetworkIpAllocation)
    → rest_of name (if b then xs else rest_of name xs) ≡ rest_of name xs
rest_of-if true name xs = refl
rest_of-if false name xs = filter_idem (λ n. not (n.pod_name == name)) xs

status_with-AreAlike :
    (net : NetText) (nw : OverlayNetwork) (pod : Pod) (is_router : Bool)
    (extra_routers : List String) (a : OverlayNetworkIpAllocation)
    (allocations : List OverlayNetworkIpAllocation)
    → IsEnsured pod.meta.name nw.status.allocations a allocations
    → AreAlike
        (deallocated_status documented_lo net
          (record nw {
            status = status_with documented_lo net nw pod is_router extra_routers (a, allocations);
          })
          pod)
        (deallocated_status documented_lo net nw pod)
unfolding deallocated_status
status_with-AreAlike net nw pod is_router extra_routers a allocations en =
    let name = pod.meta.name in
    let m = nw.status.optional_routers in
    let recorded = record_extra_routers documented_lo net a extra_routers m in
    record {
      allocations = en.same_rest;
      routers = rest_of-record_router net pod is_router a nw.status.routers en.named;
      optional = λ k.
          let g = get [] k recorded in
          get-map_entries (λ _ xs. rest_of name xs) k
            (drop_other_routers documented_lo net pod extra_routers recorded) refl
          ∙ ap (rest_of name) (
              get-map_entries (λ n xs. if contains extra_routers n then xs else rest_of name xs) k
                recorded (if_same (contains extra_routers k) []))
          ∙ rest_of-if (contains extra_routers k) name g
          ∙ subst (λ n. rest_of n g ≡ rest_of n (get [] k m)) en.named
              (rest_of-record_extra_routers net a extra_routers m k)
          ∙ sym (get-map_entries (λ _ xs. rest_of name xs) k m refl);
    }

documented-AreAlike :
    (net : NetText) (nw : OverlayNetwork) (pod : Pod) (is_router : Bool)
    (extra_networks extra_routers : List String) (s : OverlayNetworkStatus)
    → allocated_status documented_lo net nw pod is_router extra_networks extra_routers ≡ ok s
    → AreAlike
        (deallocated_status documented_lo net (record nw { status = s }) pod)
        (deallocated_status documented_lo net nw pod)
documented-AreAlike net nw pod is_router extra_networks extra_routers s e =
    let (p, ensured, made) =
      allocated_status-eq-ok net nw pod is_router extra_networks extra_routers e in
    subst
      (OnOk (λ t.
        AreAlike (deallocated_status documented_lo net (record nw { status = t }) pod)
          (deallocated_status documented_lo net nw pod)))
      made
      (status_with-AreAlike net nw pod is_router extra_routers p.0 p.1
        (ensure_allocation-IsEnsured net nw pod extra_networks p.0 p.1 ensured))

-- The removal of a pod undoes what allocateIP made of the status: the allocations and the routers are
-- those that the removal leaves without the allocation, and so are the optional routers at each name.
pub deallocated_status-allocated_status :
    {lo : Lo} (laws : IsLo lo) (net : NetText) (nw : OverlayNetwork) (pod : Pod) (is_router : Bool)
    (extra_networks extra_routers : List String) (s : OverlayNetworkStatus)
    → allocated_status lo net nw pod is_router extra_networks extra_routers ≡ ok s
    → AreAlike
        (deallocated_status lo net (record nw { status = s }) pod)
        (deallocated_status lo net nw pod)
deallocated_status-allocated_status laws net nw pod is_router extra_networks extra_routers s =
    transport_lo laws
      (λ lo.
        allocated_status lo net nw pod is_router extra_networks extra_routers ≡ ok s
        → AreAlike (deallocated_status lo net (record nw { status = s }) pod)
            (deallocated_status lo net nw pod))
      (documented-AreAlike net nw pod is_router extra_networks extra_routers s)
