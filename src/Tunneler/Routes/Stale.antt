-- ===== src/Tunneler/Routes/Stale.antt =====
-- Which routes a reconciliation keeps.
use kube_overlay_operator.Base.{
  ℕ, Bool, true, false, ◌&&◌, ◌≡◌, refl, ◌∙◌, ap, none, some, List, [], ◌∷◌, ◌++◌, arith, nat_eq,
  Bool-cases, inl, inr,
}
use kube_overlay_operator.Base.Lists.{any, find}
use kube_overlay_operator.Base.Outcome.{returned, pure, ◌>>◌}
use kube_overlay_operator.External.Lo.{Lo, IsLo, documented_lo, transport_lo}
use kube_overlay_operator.External.Netlink.{Netlink, Route}
use kube_overlay_operator.Net.Bytes.{IpNet}
use kube_overlay_operator.Net.Masks.{bytes_eq, ip_equal, mask_size}
use kube_overlay_operator.Net.Text.{NetText}
use kube_overlay_operator.Tunneler.{LinkInfo, RouteState, World, call}
use kube_overlay_operator.Tunneler.Routes.{net_equal, is_own_route, matching_target, visit_route}

-- Masks with as many ones and bits.
abbrev pub same_size : IpNet → IpNet → Bool
same_size n1 n2 =
    nat_eq (mask_size n1.mask).0 (mask_size n2.mask).0
    && nat_eq (mask_size n1.mask).1 (mask_size n2.mask).1

pub bytes_eq_refl : (bs : List ℕ) → bytes_eq bs bs ≡ true
bytes_eq_refl [] = refl
bytes_eq_refl (b ∷ bs) = ground (arith, bytes_eq_refl bs)

-- netEqual compares the sizes of the masks only: two networks of one size are equal to it, whatever
-- their addresses.
pub net_equal-same_size : (n1 n2 : IpNet) → net_equal n1 n2 ≡ same_size n1 n2
unfolding net_equal ip_equal
net_equal-same_size n1 n2 = ground (arith, bytes_eq_refl n1.ip)

-- The route goes by the gateway of a target and its network has the target's size.
abbrev pub looks_like : Route → IpNet → RouteState → Bool
looks_like route dst t = ip_equal t.router route.gw && same_size dst t.net

find-same :
    {A : Type 0} (p q : A → Bool) → ((a : A) → p a ≡ q a) → (xs : List A) → find p xs ≡ find q xs
find-same p q h [] = refl
find-same p q h (x ∷ xs) = ground (arith, h x, find-same p q h xs)

find-outcome :
    {A : Type 0} (p : A → Bool) (xs : List A)
    → (any p xs ≡ true → (a : A) × (find p xs ≡ some a) × (p a ≡ true))
      × (any p xs ≡ false → find p xs ≡ none)
find-outcome p [] = (λ h. ground arith, λ h. refl)
find-outcome p (x ∷ xs) = elim (Bool-cases (p x)) [
  | inl e ↦ (λ h. (x, ground (arith, e), e), λ h. ground (arith, e, h))
  | inr e ↦
      let (some_case, none_case) = find-outcome p xs in
      (
        λ h. let (a, f, g) = some_case (ground (arith, e, h)) in (a, ground (arith, e, f), g),
        λ h. ground (arith, e, h, none_case),
      )
]

matching_target-find :
    (net : NetText) (nl : Netlink) (targets : List RouteState) (route : Route) (dst : IpNet)
    → route.dst ≡ some dst
    → matching_target documented_lo net nl targets route
      ≡ some (find (looks_like route dst) targets)
unfolding matching_target
matching_target-find net nl [] route dst e = refl
matching_target-find net nl (t ∷ ts) route dst e = rw e (
    ap some (
      find-same (λ rt. ip_equal rt.router route.gw && net_equal dst rt.net) (looks_like route dst)
        (λ rt. ap (λ b. ip_equal rt.router route.gw && b) (net_equal-same_size dst rt.net))
        (t ∷ ts)))

module _ (net : NetText) {nl : Netlink} (own : IpNet) (info : LinkInfo) (targets : List RouteState)
    (route : Route) (dst : IpNet) (found : Bool) (processed : List RouteState) (w : World nl) where
  -- The route stays, and counts as the one of a target that it looks like.
  abbrev pub IsKept : Lo → Type 0
  IsKept lo =
      (t : RouteState) × (visit_route lo net nl own info targets route (found, processed) w
        ≡ (returned (found, processed ++ t ∷ []), w))
      × (looks_like route dst t ≡ true)

  -- The visit is the deletion of the route.
  abbrev pub IsDeleted : Lo → Type 0
  IsDeleted lo =
      visit_route lo net nl own info targets route (found, processed) w
      ≡ (call nl (nl.route_del route) >> pure (found, processed)) w

  not_own :
      nat_eq route.scope nl.scope_link ≡ false
      → is_own_route documented_lo net nl own info route ≡ some false
  unfolding is_own_route
  not_own foreign = rw foreign refl

  documented-kept :
      nat_eq route.scope nl.scope_link ≡ false
      → route.dst ≡ some dst
      → (any (looks_like route dst) targets ≡ true → IsKept documented_lo)
        × (any (looks_like route dst) targets ≡ false → IsDeleted documented_lo)
  unfolding visit_route
  documented-kept foreign e =
      let (keep, drop) = find-outcome (looks_like route dst) targets in
      let m = matching_target-find net nl targets route dst e in
      let o = not_own foreign in
      (
        λ h. let (t, f, g) = keep h in (t, rw (o, m ∙ ap some f, visit_route) refl, g),
        λ h. rw (o, m ∙ ap some (drop h), visit_route) refl,
      )

  -- A route that is not of link scope and has a destination stays just if it looks like a target, that
  -- is, has its gateway and a network of its size; otherwise its visit is its deletion.
  pub visit_route-kept :
      {lo : Lo}
      → IsLo lo
      → nat_eq route.scope nl.scope_link ≡ false
      → route.dst ≡ some dst
      → (any (looks_like route dst) targets ≡ true → IsKept lo)
        × (any (looks_like route dst) targets ≡ false → IsDeleted lo)
  visit_route-kept laws foreign e =
      transport_lo laws
        (λ lo.
          (any (looks_like route dst) targets ≡ true → IsKept lo)
          × (any (looks_like route dst) targets ≡ false → IsDeleted lo))
        (documented-kept foreign e)
