-- ===== src/Tunneler/Routes/Repeated.antt =====
-- Target routes that are added twice.
use mathlib.Core.List.{Memᴰ}
use mathlib.Core.List.Memᴰ
use kube_overlay_operator.Base.{
  String, Bool, true, false, ◌≡◌, refl, subst, Option, none, some, List, [], ◌∷◌, ◌++◌, arith,
  Bool-cases, Option-cases, inl, inr,
}
use kube_overlay_operator.Base.Outcome.{
  Outcome, returned, failed, panicked, pure, continue, for_each, Post, continue-Post, Post-weaken,
}
use kube_overlay_operator.Base.Dict.{Dict}
use kube_overlay_operator.Base.Result.{ok}
use kube_overlay_operator.Api.{OverlayNetwork}
use kube_overlay_operator.External.Lo.{Lo, IsLo}
use kube_overlay_operator.External.Netlink.{Netlink, Link, Route, succeeded, after_call}
use kube_overlay_operator.Net.Bytes.{IpNet}
use kube_overlay_operator.Net.Text.{NetText}
use kube_overlay_operator.Tunneler.{
  TunnelReconciler, LinkInfo, RouteState, World, Action, answered, query,
}
use kube_overlay_operator.Tunneler.Routes.{
  local_ip, routes_of, visit_routes, add_own_route, is_processed, add_if_missing, link_targets,
  sync_link, reconcile_link, reconcile_routes,
}

-- RouteAdd refuses a route that is there, as `ip route add` does.
pub record RefusesRepeats (nl : Netlink) : Type 0 where
  pub has_route : nl.Kernel → Route → Bool
  pub added_lem :
      (r : Route) (k : nl.Kernel)
      → succeeded (nl.route_add r k) ≡ true
      → has_route (after_call (nl.route_add r k)) r ≡ true
  pub kept_lem :
      (r s : Route) (k : nl.Kernel)
      → has_route k s ≡ true
      → has_route (after_call (nl.route_add r k)) s ≡ true
  pub refused_lem :
      (r : Route) (k : nl.Kernel) → has_route k r ≡ true → succeeded (nl.route_add r k) ≡ false

-- The code does not succeed.
abbrev pub Fails : {W E A : Type 0} → Outcome E A × W → Type 0
Fails r = Post (λ _ _. ⊥) (λ _. Unit) r

continue-Fails :
    {W E A B : Type 0} (r : Outcome E A × W) (next : A → W → Outcome E B × W)
    → Post (λ a w. Fails (next a w)) (λ _. Unit) r
    → Fails (continue r next)
continue-Fails r next h =
    continue-Post (λ a w. Fails (next a w)) (λ _ _. ⊥) (λ _. Unit) r next h (λ a w f. f)

anyhow : {W E A : Type 0} (r : Outcome E A × W) → Post (λ _ _. Unit {0}) (λ _. Unit {0}) r
anyhow (returned a, w) = tt
anyhow (failed e, w) = tt
anyhow (panicked, w) = tt

-- The target stands at two places of the list.
pub data Twice (t : RouteState) : List RouteState → Type 0 where
  both : {xs : List RouteState} → Memᴰ t xs → Twice t (t ∷ xs)
  later : {x : RouteState} {xs : List RouteState} → Twice t xs → Twice t (x ∷ xs)

Twice-append :
    (t : RouteState) (xs ys : List RouteState) → Memᴰ t xs → Memᴰ t ys → Twice t (xs ++ ys)
Twice-append t [] ys m n = elim m [ ]
Twice-append t (x ∷ xs) ys (Memᴰ.head e) n =
    subst (λ y. Twice t (y ∷ xs ++ ys)) e (both (Memᴰ.append_right xs n))
Twice-append t (x ∷ xs) ys (Memᴰ.tail m) n = later (Twice-append t xs ys m n)

module _ (lo : Lo) (net : NetText) {nl : Netlink} (refuses : RefusesRepeats nl) (link : Link)
    (info : LinkInfo) (processed : List RouteState) (t : RouteState)
    (new : is_processed lo net nl processed t ≡ false) where
  -- The route that the code adds for a target.
  abbrev route_for : RouteState → Route
  route_for target = record {
    link_index = link.index;
    scope = 0;
    dst = some target.net;
    src = local_ip lo net nl info;
    gw = target.router;
  }

  abbrev Present : World nl → Type 0
  Present w = refuses.has_route w.kernel (route_for t) ≡ true

  abbrev step : RouteState → Action nl (Unit {0})
  step target = add_if_missing lo net nl link info processed target

  added-Present :
      (self : TunnelReconciler) (r : Option nl.Error × nl.Kernel)
      → (succeeded r ≡ true → refuses.has_route (after_call r) (route_for t) ≡ true)
      → Post (λ _. Present) (λ _. Unit) (answered nl r self)
  added-Present self (none, k) h = h refl
  added-Present self (some e, k) h = tt

  refused-Fails :
      (self : TunnelReconciler) (r : Option nl.Error × nl.Kernel)
      → succeeded r ≡ false
      → Fails (answered nl r self)
  refused-Fails self (none, k) h = ground (arith, h)
  refused-Fails self (some e, k) h = tt

  step-Present :
      (target : RouteState) (w : World nl)
      → Present w
      → Post (λ _. Present) (λ _. Unit) (step target w)
  unfolding add_if_missing
  step-Present target w h = elim (Bool-cases (is_processed lo net nl processed target)) [
    | inl e ↦ rw (e, add_if_missing) h
    | inr e ↦
        rw (e, add_if_missing)
          (added-Present w.self (nl.route_add (route_for target) w.kernel)
            (λ _. refuses.kept_lem (route_for target) (route_for t) w.kernel h))
  ]

  first-Present : (w : World nl) → Post (λ _. Present) (λ _. Unit) (step t w)
  unfolding add_if_missing
  first-Present w =
      rw (new, add_if_missing)
        (added-Present w.self (nl.route_add (route_for t) w.kernel)
          (refuses.added_lem (route_for t) w.kernel))

  second-Fails : (w : World nl) → Present w → Fails (step t w)
  unfolding add_if_missing
  second-Fails w h =
      rw (new, add_if_missing)
        (refused-Fails w.self (nl.route_add (route_for t) w.kernel)
          (refuses.refused_lem (route_for t) w.kernel h))

  again-Fails :
      (targets : List RouteState) (w : World nl)
      → Memᴰ t targets
      → Present w
      → Fails (for_each targets step w)
  again-Fails [] w m h = elim m [ ]
  again-Fails (x ∷ xs) w (Memᴰ.head e) h =
      continue-Fails (step x w) (λ _. for_each xs step)
        (subst (λ y. Post (λ _ w'. Fails (for_each xs step w')) (λ _. Unit) (step y w)) e
          (Post-weaken _ _ _ _ (step t w) (λ _ _ no. absurd no) (λ _ u. u) (second-Fails w h)))
  again-Fails (x ∷ xs) w (Memᴰ.tail m) h =
      continue-Fails (step x w) (λ _. for_each xs step)
        (Post-weaken _ _ _ _ (step x w) (λ _ w' h'. again-Fails xs w' m h') (λ _ u. u)
          (step-Present x w h))

  Twice-Fails :
      (targets : List RouteState) (w : World nl) → Twice t targets → Fails (for_each targets step w)
  Twice-Fails [] w d = elim d [ ]
  Twice-Fails (x ∷ xs) w (both m) =
      continue-Fails (step t w) (λ _. for_each xs step)
        (Post-weaken _ _ _ _ (step t w) (λ _ w' h'. again-Fails xs w' m h') (λ _ u. u)
          (first-Present w))
  Twice-Fails (x ∷ xs) w (later d) =
      continue-Fails (step x w) (λ _. for_each xs step)
        (Post-weaken (λ _ _. Unit) _ (λ _. Unit) _ (step x w) (λ _ w' _. Twice-Fails xs w' d)
          (λ _ u. u) (anyhow (step x w)))

module _ {lo : Lo} (laws : IsLo lo) (net : NetText) {nl : Netlink}
    (refuses : RefusesRepeats nl) where
  sync_link-Fails :
      (link : Link) (info : LinkInfo) (alloc_net : IpNet) (targets : List RouteState)
      (t : RouteState) (w : World nl)
      → Twice t targets
      → Fails (sync_link lo net nl false link info alloc_net targets [] w)
  unfolding sync_link visit_routes continue
  sync_link-Fails link info alloc_net targets t w d =
      continue-Fails (add_own_route lo net nl false alloc_net link info w) _ (
        Post-weaken (λ _ _. Unit) _ (λ _. Unit) _
          (add_own_route lo net nl false alloc_net link info w)
          (λ _ w' _.
            Twice-Fails lo net refuses link info [] t (laws.contains_by_lem [] _) targets w' d)
          (λ _ u. u) (anyhow (add_own_route lo net nl false alloc_net link info w)))

  abbrev KeepsTarget : RouteState → {E W : Type 0} → Outcome E (List RouteState) × W → Type 0
  KeepsTarget t r = Post (λ ts _. Memᴰ t ts) (λ _. Unit) r

  continue-KeepsTarget :
      (t : RouteState) {W E A : Type 0} (r : Outcome E A × W)
      (next : A → W → Outcome E (List RouteState) × W)
      → ((a : A) (w : W) → KeepsTarget t (next a w))
      → KeepsTarget t (continue r next)
  continue-KeepsTarget t r next h =
      continue-Post (λ _ _. Unit) (λ ts _. Memᴰ t ts) (λ _. Unit) r next (anyhow r) (λ a w _. h a w)

  -- A member's link leaves each route of the network among the targets of the next link.
  reconcile_link-target :
      (nw : OverlayNetwork) (entry : String × LinkInfo) (targets : List RouteState) (t : RouteState)
      (w : World nl)
      → Memᴰ t (routes_of net nw.spec.routable_cidrs nw.status.routers)
      → KeepsTarget t (reconcile_link lo net nl nw false entry targets w)
  unfolding reconcile_link link_targets
  reconcile_link-target nw entry targets t w n =
      continue-KeepsTarget t (query nl (nl.link_by_name entry.0) w) _ (λ link w1.
        continue-KeepsTarget t (query nl (nl.route_list link) w1) _ (λ routes w2.
          elim (Option-cases (net.parse_cidr nw.spec.allocatable_cidr)) [
            | inl bad ↦ rw bad tt
            | inr (p, parsed) ↦ rw parsed (
                continue-KeepsTarget t (sync_link lo net nl false link entry.1 p.1 _ routes w2) _
                  (λ _ _. Memᴰ.append_right targets n))
          ]))

  reconcile_link-Fails :
      (nw : OverlayNetwork) (entry : String × LinkInfo) (targets : List RouteState) (t : RouteState)
      (link : Link) (w : World nl)
      → nl.link_by_name entry.0 w.kernel ≡ ok link
      → nl.route_list link w.kernel ≡ ok []
      → Memᴰ t targets
      → Memᴰ t (routes_of net nw.spec.routable_cidrs nw.status.routers)
      → Fails (reconcile_link lo net nl nw false entry targets w)
  unfolding reconcile_link link_targets continue
  reconcile_link-Fails nw entry targets t link w named fresh m n =
      elim (Option-cases (net.parse_cidr nw.spec.allocatable_cidr)) [
        | inl bad ↦ rw (named, fresh, bad) tt
        | inr (p, parsed) ↦
            rw (named, fresh, parsed)
              (let all = targets ++ routes_of net nw.spec.routable_cidrs nw.status.routers in
                continue-Fails (sync_link lo net nl false link entry.1 p.1 all [] w) (λ _. pure all)
                  (Post-weaken (λ _ _. ⊥) _ (λ _. Unit) _
                    (sync_link lo net nl false link entry.1 p.1 all [] w) (λ _ _ no. absurd no)
                    (λ _ u. u)
                    (sync_link-Fails link entry.1 p.1 all t w (Twice-append t targets _ m n))))
      ]

  -- Where the kernel refuses a route that is there: at a member of a network with a route,
  -- reconcileRoutes does not succeed if the turn for the first link does and the second link is then
  -- there without routes.
  pub reconcile_routes-Fails :
      (nw : OverlayNetwork) (first second : String × LinkInfo) (rest : Dict LinkInfo)
      (targets targets' : List RouteState) (t : RouteState) (link : Link) (w w' : World nl)
      → Memᴰ t (routes_of net nw.spec.routable_cidrs nw.status.routers)
      → reconcile_link lo net nl nw false first targets w ≡ (returned targets', w')
      → nl.link_by_name second.0 w'.kernel ≡ ok link
      → nl.route_list link w'.kernel ≡ ok []
      → Fails (reconcile_routes lo net nl nw false (first ∷ second ∷ rest) targets w)
  unfolding reconcile_routes continue
  reconcile_routes-Fails nw first second rest targets targets' t link w w' n ran named fresh =
      let m : Memᴰ t targets' =
        subst (KeepsTarget t) ran (reconcile_link-target nw first targets t w n) in
      rw ran (
        continue-Fails (reconcile_link lo net nl nw false second targets' w')
          (λ targets''. reconcile_routes lo net nl nw false rest targets'')
          (Post-weaken (λ _ _. ⊥) _ (λ _. Unit) _
            (reconcile_link lo net nl nw false second targets' w') (λ _ _ no. absurd no) (λ _ u. u)
            (reconcile_link-Fails nw second targets' t link w' named fresh m n)))
