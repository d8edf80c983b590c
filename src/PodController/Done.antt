-- ===== src/PodController/Done.antt =====
-- What a pod has when Reconcile of the pod controller is done with it.
use mathlib.Core.List.{Perm, Permᴰ}
use mathlib.Core.Logic.{∥∥₁_elim}
use mathlib.Core.Bool.{Bool-set}
use kube_overlay_operator.Base.{
  String, Bool, true, false, not, ◌&&◌, Bool-cases, ◌≡◌, ◌≢◌, refl, sym, ap, ◌∙◌, inl, inr, Option,
  none, some, List, [], ◌∷◌, map, arith,
}
use kube_overlay_operator.Base.Lists.{All, any, contains}
use kube_overlay_operator.Base.Dict.{Dict, lookup, insert, has, lookup-insert}
use kube_overlay_operator.Api.{OverlayNetwork, Pod}
use kube_overlay_operator.External.Lo.{Lo, IsLo, insert_all, bool_eq}
use kube_overlay_operator.External.Finalizers.{Finalizers}
use kube_overlay_operator.External.Client.{Client, done}
use kube_overlay_operator.Net.Text.{NetText}
use kube_overlay_operator.PodController.WellFormed.{IsWellFormed}
use kube_overlay_operator.PodController.Reconcile.{
  LoopState, all_networks, unique_networks, visit_all, conclude, reconcile_since,
  reconcile_networks, router_networks,
}
use kube_overlay_operator.PodController.Deletion.{IsMapToSlice}
use kube_overlay_operator.PodController.Wants.{wants, is_wanted, Matches}
use kube_overlay_operator.PodController.Served.{
  IsServed, visit_all-IsServed, visit_all-Matches, visit_all-marks,
}

any-Permᴰ : (p : Bool → Bool) {xs ys : List Bool} → Permᴰ xs ys → any p xs ≡ any p ys
any-Permᴰ p Permᴰ.nil = refl
any-Permᴰ p (Permᴰ.cons same d) = rw (same, any-Permᴰ p d) refl
any-Permᴰ p (Permᴰ.swap same same') = rw (same, same') (ground arith)
any-Permᴰ p (Permᴰ.trans d d') = any-Permᴰ p d ∙ any-Permᴰ p d'

any-Perm : (p : Bool → Bool) {xs ys : List Bool} → Perm xs ys → any p xs ≡ any p ys
any-Perm p {xs} {ys} h = ∥∥₁_elim h (Bool-set (any p xs) (any p ys)) (any-Permᴰ p)

abbrev is_false : Bool → Bool
is_false b = bool_eq b false

lookup-all_true :
    (m : Dict Bool) (k : String)
    → any is_false (map (λ (e : String × Bool). e.1) m) ≡ false
    → has k m ≡ true
    → lookup k m ≡ some true
lookup-all_true [] k h held = absurd (ground arith)
lookup-all_true ((j, true) ∷ m) k h held = ground (arith, lookup-all_true m k)
lookup-all_true ((j, false) ∷ m) k h held = absurd (ground arith)

insert_all-marks :
    (xs : List String) (m : Dict Bool) (k : String)
    → (lookup k m ≢ some true)
    → lookup k (insert_all m xs (λ nw. (nw, false))) ≢ some true
insert_all-marks [] m k h = h
insert_all-marks (x ∷ xs) m k h =
    insert_all-marks xs (insert x false m) k (λ e. ground (arith, lookup-insert k x false m, h, e))

module _ {lo : Lo} (laws : IsLo lo) (net : NetText) (c : Client) where
  unique_networks-marks :
      (pod : Pod) (k : String) → lookup k (unique_networks lo net c pod) ≢ some true
  unfolding unique_networks
  unique_networks-marks pod k e =
      insert_all-marks (lo.uniq (all_networks lo net c pod)) [] k (λ f. ground (arith, f))
        (ap (lookup k) (sym (laws.slice_to_map_lem _ (λ nw. (nw, false)))) ∙ e)

  module _ (fz : Finalizers) (map_to_slice : Dict Bool → (String → Bool → Bool) → List Bool)
      (order : IsMapToSlice map_to_slice) where
    conclude-done :
        (s : LoopState)
        → (conclude lo net c fz map_to_slice s).0 ≡ done
        → (s.has_errors ≡ false)
          × (any is_false (map (λ (e : String × Bool). e.1) s.unique_networks) ≡ false)
    unfolding conclude
    conclude-done s h =
        let values = laws.contains_bool_lem (map_to_slice s.unique_networks (λ _ v. v)) false in
        let same = any-Perm is_false (order s.unique_networks (λ _ v. v)) in
        (ground (arith, h), sym same ∙ sym values ∙ ground (arith, h))

    reconcile_since-done :
        (pod : Pod) (time : Option String) (nws : List OverlayNetwork)
        → pod.meta.deletion_timestamp ≡ time
        → time ≡ none
        → All (λ nw. IsWellFormed nw.status) nws
        → (reconcile_since lo net c fz map_to_slice time pod nws []).0 ≡ done
        → All (IsServed lo net c pod) nws
          × ((k : String)
              → (is_wanted lo net c pod k && not (contains (map (λ nw. nw.meta.name) nws) k))
                ≡ false)
    unfolding reconcile_since
    reconcile_since-done pod (some time) nws e alive w h = absurd (ground (arith, alive))
    reconcile_since-done pod none nws e alive w h =
        let start : LoopState = record {
          unique_networks = unique_networks lo net c pod;
          has_errors = false;
          log = [];
        } in
        let routers = router_networks lo net c pod in
        let m : Matches lo net c pod start = λ k. ap (λ t. wants lo net c pod t k) (sym e) in
        let end = visit_all lo net c pod routers nws start in
        let (good, marked) = conclude-done end h in
        let (_, served) = visit_all-IsServed lo net c pod laws routers nws start w m good in
        (
          served,
          λ k. elim (Bool-cases (is_wanted lo net c pod k)) [
            | inr unwanted ↦ ground (arith, unwanted)
            | inl wanted ↦
                let held = visit_all-Matches lo net c pod routers nws start m k ∙ wanted in
                elim (visit_all-marks lo net c pod routers nws start k
                  (lookup-all_true end.unique_networks k marked held)) [
                    | inl before ↦ absurd (unique_networks-marks pod k before)
                    | inr listed ↦ ground (arith, listed)
                  ]
          ],
        )

    -- If the API server has listed networks with well-formed statuses, and Reconcile is done with a
    -- pod that is not being deleted, then each network that the pod names is among those listed, and
    -- of each of these a status was sent that the server took, unless the network is gone, in which
    -- the pod has an address just if it names the network.
    pub reconcile_networks-done :
        (pod : Pod) (nws : List OverlayNetwork)
        → pod.meta.deletion_timestamp ≡ none
        → All (λ nw. IsWellFormed nw.status) nws
        → (reconcile_networks lo net c fz map_to_slice pod nws []).0 ≡ done
        → All (IsServed lo net c pod) nws
          × ((k : String)
              → (is_wanted lo net c pod k && not (contains (map (λ nw. nw.meta.name) nws) k))
                ≡ false)
    unfolding reconcile_networks
    reconcile_networks-done pod nws alive w h =
        reconcile_since-done pod pod.meta.deletion_timestamp nws refl alive w h
