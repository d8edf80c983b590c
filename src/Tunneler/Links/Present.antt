-- ===== src/Tunneler/Links/Present.antt =====
-- Links that are there are not set up again.
use kube_overlay_operator.Base.{
  String, Bool, true, false, ◌&&◌, ◌≡◌, refl, subst, List, [], ◌∷◌, arith, has_prefix, Bool-cases,
  inl, inr,
}
use kube_overlay_operator.Base.Dict.{Dict, keys}
use kube_overlay_operator.Base.Lists.{any, contains, Distinct}
use kube_overlay_operator.Base.Outcome.{returned, continue, Post}
use kube_overlay_operator.Api.{OverlayNetwork}
use kube_overlay_operator.External.Lo.{Lo}
use kube_overlay_operator.External.Netlink.{Netlink, IsNetlink, Link}
use kube_overlay_operator.Net.Text.{NetText}
use kube_overlay_operator.Tunneler.{LinkInfo, World}
use kube_overlay_operator.Tunneler.Links.{visit_links, setup_if_missing, setup_missing}
use kube_overlay_operator.Tunneler.Links.Visit.{
  is_pending, pending-absent, names, Isolated, Visited, visit_links-Visited,
}

module _ (lo : Lo) (net : NetText) {nl : Netlink} (laws : IsNetlink nl) where
  setup_missing-settled :
      (nw : OverlayNetwork) (is_router : Bool) (target : Dict LinkInfo) (w : World nl)
      → ((x : String) → any (is_pending x) target ≡ false)
      → setup_missing lo net nl nw is_router target w ≡ (returned tt, w)
  unfolding setup_missing setup_if_missing continue
  setup_missing-settled nw is_router [] w none_pending = refl
  setup_missing-settled nw is_router ((name, info) ∷ target) w none_pending =
      let done : info.processed ≡ true = ground (arith, none_pending name) in
      simp (done, setup_missing-settled nw is_router target w (λ x. ground (arith, none_pending x)))
        refl

  -- If each target stands once, all of them have the prefix, their links are among those visited, and
  -- the visit succeeds, the loop that sets up links succeeds and changes nothing.
  pub setup_missing-present :
      (nw : OverlayNetwork) (is_router : Bool) (prefix : String) (ls : List Link)
      (target target' : Dict LinkInfo) (w w' : World nl)
      → Distinct (keys target)
      → ((x : String)
          → contains (keys target) x ≡ true
          → (contains (names ls) x && has_prefix x prefix) ≡ true)
      → visit_links lo net nl prefix ls target w ≡ (returned target', w')
      → setup_missing lo net nl nw is_router target' w' ≡ (returned tt, w')
  setup_missing-present nw is_router prefix ls target target' w w' once there ran =
      let v : Visited laws prefix ls target w target' w' =
        subst (Post (Visited laws prefix ls target w) (Isolated laws prefix w)) ran
          (visit_links-Visited lo net laws prefix ls target w once) in
      setup_missing-settled nw is_router target' w' (λ x.
        elim (Bool-cases (contains (keys target) x)) [
          | inl known ↦ ground (arith, v.pending x, there x known)
          | inr other ↦ ground (arith, v.pending x, pending-absent x target other)
        ])
