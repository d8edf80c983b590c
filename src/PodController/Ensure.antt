-- ===== src/PodController/Ensure.antt =====
-- What `ensure_allocation` does to the list of allocations, for the documented lo.
use mathlib.Core.List.{map-append}
use kube_overlay_operator.Base.{
  ℕ, suc, String, Bool, true, false, ◌≡◌, ◌≢◌, refl, sym, ap, subst, ◌∙◌, Option, none, some, List,
  [], ◌∷◌, ◌++◌, map, ◌==◌, ◌||◌, arith, Option-cases, Bool-cases, inl, inr, ◌⊎◌,
}
use kube_overlay_operator.Base.Lists.{set, any, contains, Distinct, Distinct-snoc}
use kube_overlay_operator.Base.Dict.{Dict, lookup, insert, lookup-insert}
use kube_overlay_operator.Base.Result.{Result, ok, err, OnOk}
use kube_overlay_operator.Api.{OverlayNetwork, OverlayNetworkIpAllocation, Pod}
use kube_overlay_operator.External.Lo.{documented_lo, find_index_from}
use kube_overlay_operator.Net.Text.{NetText}
use kube_overlay_operator.Iputil.{is_allocated}
use kube_overlay_operator.Iputil.Host.{first_free_host-free}
use kube_overlay_operator.PodController.Allocation.{
  AllocationError, fill_allocation_map, requested_ip, choose_ip, add_allocation, ensure_allocation,
}
use kube_overlay_operator.PodController.WellFormed.{pod_names, ips, place, IsBacked, rest_of}

-- An address is in the map if it is in the list, or was in the map before.
is_allocated-fill :
    (v : String) (m : Dict Bool) (xs : List OverlayNetworkIpAllocation)
    → is_allocated (fill_allocation_map m xs) v ≡ (contains (ips xs) v || is_allocated m v)
unfolding fill_allocation_map
is_allocated-fill v m [] = refl
is_allocated-fill v m (x ∷ xs) =
    ground (arith, is_allocated-fill v (insert x.ip true m) xs, lookup-insert v x.ip true m)

-- The address for a new pod is not that of another.
pub choose_ip-free :
    (net : NetText) (nw : OverlayNetwork) (pod : Pod) (ip : String)
    → choose_ip documented_lo net nw pod ≡ ok ip
    → contains (ips nw.status.allocations) ip ≡ false
unfolding choose_ip
choose_ip-free net nw pod ip e =
    let allocations = nw.status.allocations in
    ground (
      arith,
      first_free_host-free net (fill_allocation_map [] allocations) nw.spec.allocatable_cidr
          (requested_ip documented_lo net nw pod) ip,
      is_allocated-fill ip [] allocations,
    )

abbrev Found : Type 0
Found = Option (OverlayNetworkIpAllocation × ℕ)

shift : Found → Found
shift none = none
shift (some (x, i)) = some (x, suc i)

shift-eq-some :
    (o : Found) (x : OverlayNetworkIpAllocation) (i : ℕ)
    → shift o ≡ some (x, i)
    → (j : ℕ) × (i ≡ suc j) × (o ≡ some (x, j))
unfolding shift
shift-eq-some none x i e = cc
shift-eq-some (some (y, j)) x i e = (j, cc, cc)

shift-eq-none : (o : Found) → shift o ≡ none → o ≡ none
unfolding shift
shift-eq-none none e = refl
shift-eq-none (some (y, j)) e = cc

module _ (p : OverlayNetworkIpAllocation → Bool) where
  find_index_from-suc :
      (i : ℕ) (xs : List OverlayNetworkIpAllocation)
      → find_index_from (suc i) xs p ≡ shift (find_index_from i xs p)
  unfolding shift
  find_index_from-suc i [] = refl
  find_index_from-suc i (x ∷ xs) = ground (arith, find_index_from-suc (suc i) xs)

  find_index_from-cons :
      (x z : OverlayNetworkIpAllocation) (i : ℕ) (zs : List OverlayNetworkIpAllocation)
      → find_index_from 0 (z ∷ zs) p ≡ some (x, i)
      → ((p z ≡ true) × (x ≡ z) × (i ≡ 0))
        ⊎ ((p z ≡ false) × ((j : ℕ) × (i ≡ suc j) × (find_index_from 0 zs p ≡ some (x, j))))
  find_index_from-cons x z i zs e = elim (Bool-cases (p z)) [
    | inl yes' ↦ inl (yes', ground (arith, yes'), ground (arith, yes'))
    | inr no' ↦
        inr (no', shift-eq-some _ x i (sym (find_index_from-suc 0 zs) ∙ ground (arith, no')))
  ]

  -- The found element passes, and replacing it by one with the same f keeps the list of all f.
  pub map-set_found {ℓ} :
      {B : Type ℓ} (f : OverlayNetworkIpAllocation → B) (xs : List OverlayNetworkIpAllocation)
      (x y : OverlayNetworkIpAllocation) (i : ℕ)
      → find_index_from 0 xs p ≡ some (x, i)
      → f y ≡ f x
      → (p x ≡ true) × (map f (set xs i y) ≡ map f xs)
  map-set_found f [] x y i e same = cc
  map-set_found f (z ∷ zs) x y i e same = elim (find_index_from-cons x z i zs e) [
    | inl (pz, xz, i0) ↦ (rw xz pz, rw i0 (cc))
    | inr (pz, (j, i1, e')) ↦ let (px, rest) = map-set_found f zs x y j e' same in (px, rw i1 (cc))
  ]

  -- None is found just if none passes.
  pub any-of_not_found :
      (xs : List OverlayNetworkIpAllocation) → find_index_from 0 xs p ≡ none → any p xs ≡ false
  any-of_not_found [] e = refl
  any-of_not_found (z ∷ zs) e =
      ground (
        arith,
        any-of_not_found zs,
        find_index_from-suc 0 zs,
        shift-eq-none (find_index_from 0 zs p),
      )

-- `allocations'` are the allocations with one for the pod, `a`, that is new or was there before.
pub record IsEnsured (name : String) (allocations : List OverlayNetworkIpAllocation)
    (a : OverlayNetworkIpAllocation) (allocations' : List OverlayNetworkIpAllocation) : Type 0 where
  pub named : a.pod_name ≡ name
  pub backed : IsBacked allocations' a
  pub grown :
      (j : String) (v : String × String)
      → lookup j (map place allocations) ≡ some v
      → lookup j (map place allocations') ≡ some v
  pub unchanged :
      (j : String) → name ≢ j → lookup j (map place allocations') ≡ lookup j (map place allocations)
  pub same_rest : rest_of name allocations' ≡ rest_of name allocations
  pub one_per_pod : Distinct (pod_names allocations) → Distinct (pod_names allocations')
  pub one_per_ip : Distinct (ips allocations) → Distinct (ips allocations')

module _ (name : String) where
  abbrev pub is_pod : OverlayNetworkIpAllocation → Bool
  is_pod item = name == item.pod_name

  lookup_of_found :
      (xs : List OverlayNetworkIpAllocation) (x : OverlayNetworkIpAllocation) (i : ℕ)
      → find_index_from 0 xs is_pod ≡ some (x, i)
      → lookup name (map place xs) ≡ some (x.ip, x.pod_ip)
  lookup_of_found [] x i e = cc
  lookup_of_found (z ∷ zs) x i e = elim (find_index_from-cons is_pod x z i zs e) [
    | inl (pz, xz, i0) ↦ ground (arith, pz, xz)
    | inr (pz, (j, i1, e')) ↦ ground (arith, pz, lookup_of_found zs x j e')
  ]

  lookup_of_absent :
      (xs : List OverlayNetworkIpAllocation)
      → any is_pod xs ≡ false
      → (lookup name (map place xs) ≡ none) × (contains (pod_names xs) name ≡ false)
  lookup_of_absent [] e = (refl, refl)
  lookup_of_absent (z ∷ zs) e = ground (arith, lookup_of_absent zs)

rest_of-set :
    (name : String) (xs : List OverlayNetworkIpAllocation) (x y : OverlayNetworkIpAllocation)
    (i : ℕ)
    → find_index_from 0 xs (is_pod name) ≡ some (x, i)
    → y.pod_name ≡ x.pod_name
    → rest_of name (set xs i y) ≡ rest_of name xs
rest_of-set name [] x y i e same = cc
rest_of-set name (z ∷ zs) x y i e same = elim (find_index_from-cons (is_pod name) x z i zs e) [
  | inl (pz, xz, i0) ↦ rw i0 (ground (arith, pz, same, ap (λ a. a.pod_name) xz))
  | inr (pz, (j, i1, e')) ↦ rw i1 (ground (arith, rest_of-set name zs x y j e' same))
]

pub rest_of-snoc :
    (xs : List OverlayNetworkIpAllocation) (a : OverlayNetworkIpAllocation)
    → rest_of a.pod_name (xs ++ a ∷ []) ≡ rest_of a.pod_name xs
rest_of-snoc [] a = ground arith
rest_of-snoc (x ∷ xs) a = ground (arith, rest_of-snoc xs a)

lookup-snoc_old :
    (xs : List OverlayNetworkIpAllocation) (a : OverlayNetworkIpAllocation) (j : String)
    (v : String × String)
    → lookup j (map place xs) ≡ some v
    → lookup j (map place (xs ++ a ∷ [])) ≡ some v
lookup-snoc_old [] a j v e = cc
lookup-snoc_old (x ∷ xs) a j v e = ground (arith, lookup-snoc_old xs a j v)

lookup-snoc_new :
    (xs : List OverlayNetworkIpAllocation) (a : OverlayNetworkIpAllocation)
    → lookup a.pod_name (map place xs) ≡ none
    → lookup a.pod_name (map place (xs ++ a ∷ [])) ≡ some (a.ip, a.pod_ip)
lookup-snoc_new [] a e = ground arith
lookup-snoc_new (x ∷ xs) a e = ground (arith, lookup-snoc_new xs a)

lookup-snoc_ne :
    (xs : List OverlayNetworkIpAllocation) (a : OverlayNetworkIpAllocation) (j : String)
    → a.pod_name ≢ j
    → lookup j (map place (xs ++ a ∷ [])) ≡ lookup j (map place xs)
lookup-snoc_ne [] a j n = ground arith
lookup-snoc_ne (x ∷ xs) a j n = ground (arith, lookup-snoc_ne xs a j)

IsEnsured-snoc :
    (xs : List OverlayNetworkIpAllocation) (a : OverlayNetworkIpAllocation)
    → any (is_pod a.pod_name) xs ≡ false
    → contains (ips xs) a.ip ≡ false
    → IsEnsured a.pod_name xs a (xs ++ a ∷ [])
IsEnsured-snoc xs a absent free =
    let (nowhere, fresh) = lookup_of_absent a.pod_name xs absent in
    record {
      named = refl;
      backed = lookup-snoc_new xs a nowhere;
      grown = λ j v h. lookup-snoc_old xs a j v h;
      unchanged = λ j n. lookup-snoc_ne xs a j n;
      same_rest = rest_of-snoc xs a;
      one_per_pod = λ d. rw map-append (Distinct-snoc (pod_names xs) a.pod_name d fresh);
      one_per_ip = λ d. rw map-append (Distinct-snoc (ips xs) a.ip d free);
    }

IsEnsured-set :
    (name : String) (xs : List OverlayNetworkIpAllocation) (x : OverlayNetworkIpAllocation) (i : ℕ)
    (extra : List String)
    → find_index_from 0 xs (is_pod name) ≡ some (x, i)
    → IsEnsured name xs
        (record x { extra_networks = extra })
        (set xs i (record x { extra_networks = extra }))
IsEnsured-set name xs x i extra e =
    let y : OverlayNetworkIpAllocation = record x { extra_networks = extra } in
    let (passes, places) = map-set_found (is_pod name) place xs x y i e refl in
    let names = (map-set_found (is_pod name) (λ a. a.pod_name) xs x y i e refl).1 in
    let addresses = (map-set_found (is_pod name) (λ a. a.ip) xs x y i e refl).1 in
    let same : x.pod_name ≡ name = ground (arith, passes) in
    record {
      named = same;
      backed = rw (places, same) (lookup_of_found name xs x i e);
      grown = λ j v h. rw places h;
      unchanged = λ j n. rw places;
      same_rest = rest_of-set name xs x y i e refl;
      one_per_pod = λ d. rw names d;
      one_per_ip = λ d. rw addresses d;
    }

add_allocation-IsEnsured :
    (net : NetText) (nw : OverlayNetwork) (pod : Pod) (extra : List String)
    (r : Result AllocationError String) (a : OverlayNetworkIpAllocation)
    (allocations' : List OverlayNetworkIpAllocation)
    → choose_ip documented_lo net nw pod ≡ r
    → any (is_pod pod.meta.name) nw.status.allocations ≡ false
    → add_allocation documented_lo net nw pod extra ≡ ok (a, allocations')
    → IsEnsured pod.meta.name nw.status.allocations a allocations'
unfolding add_allocation
add_allocation-IsEnsured net nw pod extra (ok ip) a allocations' c absent e =
    let new : OverlayNetworkIpAllocation = record {
      pod_name = pod.meta.name;
      pod_ip = pod.pod_ip;
      ip = ip;
      extra_networks = extra;
    } in
    let made = IsEnsured-snoc nw.status.allocations new absent (choose_ip-free net nw pod ip c) in
    subst (OnOk (λ p. IsEnsured pod.meta.name nw.status.allocations p.0 p.1))
      (rw (c, add_allocation) at e) made
add_allocation-IsEnsured net nw pod extra (err x) a allocations' c absent e =
    absurd (ground (arith, c))

pub ensure_allocation-IsEnsured :
    (net : NetText) (nw : OverlayNetwork) (pod : Pod) (extra : List String)
    (a : OverlayNetworkIpAllocation) (allocations' : List OverlayNetworkIpAllocation)
    → ensure_allocation documented_lo net nw pod extra ≡ ok (a, allocations')
    → IsEnsured pod.meta.name nw.status.allocations a allocations'
unfolding ensure_allocation
ensure_allocation-IsEnsured net nw pod extra a allocations' e =
    elim (Option-cases (find_index_from 0 nw.status.allocations (is_pod pod.meta.name))) [
      | inl absent ↦
          add_allocation-IsEnsured net nw pod extra _ a allocations' refl
            (any-of_not_found (is_pod pod.meta.name) nw.status.allocations absent)
            (ground (arith, absent))
      | inr ((x, i), found) ↦
          let made = IsEnsured-set pod.meta.name nw.status.allocations x i extra found in
          subst (OnOk (λ p. IsEnsured pod.meta.name nw.status.allocations p.0 p.1))
            (rw (found, ensure_allocation) at e) made
    ]
