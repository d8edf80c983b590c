-- ===== src/Tunneler/Links/Setup.antt =====
-- The loop that sets up the links that are not there.
use kube_overlay_operator.Base.{
  String, Bool, true, ◌&&◌, ◌||◌, ◌≡◌, refl, ◌∙◌, Option, none, some, [], ◌∷◌, ◌==◌, has_prefix,
  arith, Bool-cases, inl, inr,
}
use kube_overlay_operator.Base.Dict.{Dict}
use kube_overlay_operator.Base.Lists.{any}
use kube_overlay_operator.Base.Outcome.{continue, Post, continue-Post, Post-weaken}
use kube_overlay_operator.Api.{OverlayNetwork}
use kube_overlay_operator.External.Lo.{Lo}
use kube_overlay_operator.External.Netlink.{Netlink, IsNetlink, succeeded, after_call}
use kube_overlay_operator.Net.Text.{NetText}
use kube_overlay_operator.Tunneler.{LinkInfo, World, Action, answered}
use kube_overlay_operator.Tunneler.Keeps.{every, Keeps, call-Keeps, query-Keeps, bind-Keeps}
use kube_overlay_operator.Tunneler.Links.{
  tunnel, setup_tunnel_iface, setup_if_missing, setup_missing,
}
use kube_overlay_operator.Tunneler.Links.Visit.{is_pending, Isolated}
use kube_overlay_operator.Tunneler.Routes.Keeping.{configure-Keeps}

module _ {nl : Netlink} (laws : IsNetlink nl) (prefix : String) where
  -- The links of `added` are there too.
  abbrev pub Added : (String → Bool) → World nl → World nl → Type 0
  Added added w w' =
      (x : String) → laws.has_link w'.kernel x ≡ (laws.has_link w.kernel x || added x)

  pub Added-Isolated :
      (added : String → Bool) (w w' : World nl)
      → ((x : String) → added x ≡ true → has_prefix x prefix ≡ true)
      → Added added w w'
      → Isolated laws prefix w w'
  Added-Isolated added w w' p h x q = ground (arith, h x, p x)

  then-Added :
      (name : String) (w : World nl) (r : Option nl.Error × nl.Kernel) (next : Action nl (Unit {0}))
      → has_prefix name prefix ≡ true
      → ((x : String)
          → laws.has_link (after_call r) x
            ≡ (laws.has_link w.kernel x || (succeeded r && name == x)))
      → ((f : String → Bool) → Keeps laws every w.self f next)
      → Post
          (λ _. Added (λ x. name == x) w)
          (Isolated laws prefix w)
          (continue (answered nl r w.self) (λ _. next))
  unfolding continue
  then-Added name w (some e, k) next p h keep = λ x q. ground (arith, h x)
  then-Added name w (none, k) next p h keep =
      Post-weaken _ _ _ _ (next (record { self = w.self; kernel = k }))
        (λ _ w' held x. held.1 x refl ∙ h x) (λ w' held x q. held.1 x refl ∙ ground (arith, h x))
        ((keep (laws.has_link k)).run (record { self = w.self; kernel = k }) (refl, λ x _. refl))

module _ (lo : Lo) (net : NetText) {nl : Netlink} (laws : IsNetlink nl) (prefix : String) where
  setup_tunnel_iface-Added :
      (nw : OverlayNetwork) (name : String) (info : LinkInfo) (is_router : Bool) (w : World nl)
      → has_prefix name prefix ≡ true
      → Post
          (λ _. Added laws prefix (λ x. name == x) w)
          (Isolated laws prefix w)
          (setup_tunnel_iface lo net nl nw name info is_router w)
  unfolding setup_tunnel_iface
  setup_tunnel_iface-Added nw name info is_router w p =
      then-Added laws prefix name w (nl.link_add (tunnel lo net nl nw name info) w.kernel) _ p
        (laws.link_add_lem (tunnel lo net nl nw name info) w.kernel)
        (λ f. bind-Keeps _ _ _ _ (query-Keeps _ _ _ _ (nl.link_by_name name)) (λ link.
          bind-Keeps _ _ _ _ (call-Keeps _ _ _ _ _ (λ k x s. laws.link_set_up_lem link k x))
            (λ _. configure-Keeps lo net laws every w.self f nw link info is_router)))

  setup_if_missing-Added :
      (nw : OverlayNetwork) (is_router : Bool) (entry : String × LinkInfo) (w : World nl)
      → ((x : String) → is_pending x entry ≡ true → has_prefix x prefix ≡ true)
      → Post
          (λ _. Added laws prefix (λ x. is_pending x entry) w)
          (Isolated laws prefix w)
          (setup_if_missing lo net nl nw is_router entry w)
  unfolding setup_if_missing
  setup_if_missing-Added nw is_router entry w p = elim (Bool-cases entry.1.processed) [
    | inl done ↦ rw (done, setup_if_missing) (λ x. ground arith)
    | inr missing ↦
        simp (missing, setup_if_missing)
          (Post-weaken _ _ _ _ (setup_tunnel_iface lo net nl nw entry.0 entry.1 is_router w)
            (λ _ w' h x. ground (arith, h x)) (λ w' h. h)
            (setup_tunnel_iface-Added nw entry.0 entry.1 is_router w (p entry.0 (ground arith))))
  ]

  -- If all targets have the prefix, the loop adds those that are to be set up, and without an end it
  -- leaves the links without the prefix as they are.
  pub setup_missing-Added :
      (nw : OverlayNetwork) (is_router : Bool) (target : Dict LinkInfo) (w : World nl)
      → ((x : String) → any (is_pending x) target ≡ true → has_prefix x prefix ≡ true)
      → Post
          (λ _. Added laws prefix (λ x. any (is_pending x) target) w)
          (Isolated laws prefix w)
          (setup_missing lo net nl nw is_router target w)
  unfolding setup_missing
  setup_missing-Added nw is_router [] w p = λ x. ground arith
  setup_missing-Added nw is_router (entry ∷ target) w p =
      continue-Post (λ _. Added laws prefix (λ x. is_pending x entry) w) _ (Isolated laws prefix w)
        (setup_if_missing lo net nl nw is_router entry w)
        (λ _. setup_missing lo net nl nw is_router target)
        (setup_if_missing-Added nw is_router entry w (λ x q. p x (ground arith)))
        (λ _ w1 h.
          Post-weaken _ _ _ _ (setup_missing lo net nl nw is_router target w1)
            (λ _ w2 g x. ground (arith, g x, h x))
            (λ w2 g x q.
              g x q
              ∙ Added-Isolated laws prefix (λ x. is_pending x entry) w w1
                  (λ x q. p x (ground arith)) h x q)
            (setup_missing-Added nw is_router target w1 (λ x q. p x (ground arith))))
