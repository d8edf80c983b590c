-- ===== src/Tests/Kernel.antt =====
-- A concrete kernel with links, ports that receive, and routes.
use kube_overlay_operator.Base.{
  ℕ, suc, String, Bool, true, false, not, ◌&&◌, ◌||◌, ◌≡◌, refl, ap, sym, ◌∙◌, Option, none, some,
  List, [], ◌∷◌, ◌++◌, map, ◌==◌, nat_eq, arith, if◌then◌else◌,
}
use kube_overlay_operator.Base.Lists.{any, filter, contains}
use kube_overlay_operator.Base.Int.{ℤ, pos, negsuc, int_eq}
use kube_overlay_operator.Base.Result.{Result, ok, err}
use kube_overlay_operator.External.Netlink.{
  Link, Fou, Route, Netlink, IsNetlink, succeeded, after_call,
}
use kube_overlay_operator.Net.Bytes.{IpNet}
use kube_overlay_operator.Net.Masks.{bytes_eq}
use kube_overlay_operator.Tunneler.Routes.Stale.{bytes_eq_refl}
use kube_overlay_operator.Tunneler.Routes.Repeated.{RefusesRepeats}

pub record State : Type 0 where
  pub links : List String
  pub ports : List ℤ
  pub routes : List Route

abbrev pub position : String → List String → ℕ
position x [] = 0
position x (y ∷ ys) = if y == x then 0 else suc (position x ys)

abbrev pub link_of : State → String → Link
link_of k x = record { name = x; index = position x k.links }

abbrev remove : String → List String → List String
remove x ys = filter (λ y. not (y == x)) ys

abbrev fou_of : ℤ → Fou
fou_of p = record { family = 2; port = p; protocol = 4; encap_type = 1 }

-- Whether two routes are one to the kernel: by link, network and gateway.
abbrev same_dst : Option IpNet → Option IpNet → Bool
same_dst (some m) (some n) = bytes_eq m.ip n.ip && bytes_eq m.mask n.mask
same_dst none none = true
same_dst _ _ = false

abbrev same_route : Route → Route → Bool
same_route r s = nat_eq r.link_index s.link_index && same_dst r.dst s.dst && bytes_eq r.gw s.gw

-- A kernel after a call that adds a route, or refuses it.
abbrev after_route_add : Bool → Route → State → Option String × State
after_route_add true r k = (some "file exists", k)
after_route_add false r k = (none, record k { routes = r ∷ k.routes })

-- A kernel that refuses a route that is there, or one that keeps no routes and accepts each.
abbrev pub kernel_with : Bool → Netlink
kernel_with refuses = record {
  Kernel = State;
  Error = String;
  family_v4 = 2;
  scope_link = 253;
  fou_encap_direct = 1;
  link_list = λ k. ok (map (link_of k) k.links);
  link_by_name = λ x k. if contains k.links x then ok (link_of k x) else err "no such link";
  route_list =
      λ l k. ok (if refuses then filter (λ r. nat_eq r.link_index l.index) k.routes else []);
  fou_list = λ k. ok (map fou_of k.ports);
  link_add = λ t k. (none, record k { links = k.links ++ t.name ∷ [] });
  link_del = λ l k. (none, record k { links = remove l.name k.links });
  link_set_up = λ l k. (none, k);
  addr_add = λ l n k. (none, k);
  route_add = λ r k. after_route_add (refuses && any (same_route r) k.routes) r k;
  route_del = λ r k. (none, record k { routes = filter (λ s. not (same_route r s)) k.routes });
  fou_add = λ f k. (none, record k { ports = f.port ∷ k.ports });
  fou_del = λ f k. (none, record k { ports = filter (λ p. not (int_eq f.port p)) k.ports });
}

abbrev pub kernel : Netlink
kernel = kernel_with true

abbrev or_nil : {A : Type 0} → Result String (List A) → List A
or_nil (ok xs) = xs
or_nil (err e) = []

names-links :
    (k : State) (ls : List String) (x : String)
    → contains (map (λ l. l.name) (map (link_of k) ls)) x ≡ contains ls x
names-links k [] x = refl
names-links k (l ∷ ls) x = ap (λ b. l == x || b) (names-links k ls x)

contains-snoc :
    (ls : List String) (y x : String)
    → contains (ls ++ y ∷ []) x ≡ (contains ls x || (true && y == x))
contains-snoc [] y x = ground arith
contains-snoc (l ∷ ls) y x = ground (arith, contains-snoc ls y x)

contains-remove :
    (y : String) (ls : List String) (x : String)
    → contains (remove y ls) x ≡ (contains ls x && not (true && y == x))
contains-remove y [] x = ground arith
contains-remove y (l ∷ ls) x = ground (arith, contains-remove y ls x)

same_dst_refl : (d : Option IpNet) → same_dst d d ≡ true
same_dst_refl none = refl
same_dst_refl (some n) = ground (arith, bytes_eq_refl n.ip, bytes_eq_refl n.mask)

same_route_refl : (r : Route) → same_route r r ≡ true
same_route_refl r = ground (arith, same_dst_refl r.dst, bytes_eq_refl r.gw)

-- The ports of the kernel.
abbrev receives : List ℤ → ℤ → Bool
receives ps p = any (λ q. int_eq q p) ps

fous-ports :
    (ps : List ℤ) (p : ℕ) → any (λ f. int_eq f.port (pos p)) (map fou_of ps) ≡ receives ps (pos p)
fous-ports [] p = refl
fous-ports (q ∷ ps) p = ap (λ b. int_eq q (pos p) || b) (fous-ports ps p)

receives-removed :
    (p : ℕ) (ps : List ℤ) → receives (filter (λ q. not (int_eq (pos p) q)) ps) (pos p) ≡ false
receives-removed p [] = refl
receives-removed p (pos q ∷ ps) = ground (arith, receives-removed p ps)
receives-removed p (negsuc q ∷ ps) = receives-removed p ps

after_route_add-links :
    (b : Bool) (r : Route) (k : State) → (after_call (after_route_add b r k)).links ≡ k.links
after_route_add-links true r k = refl
after_route_add-links false r k = refl

pub kernel_with-IsNetlink : (refuses : Bool) → IsNetlink (kernel_with refuses)
kernel_with-IsNetlink refuses = record {
  has_link = λ k x. contains k.links x;
  has_fou = λ k p. receives k.ports p;
  link_list_lem = λ k ls x e.
      ap (λ r. contains (map (λ l. l.name) (or_nil r)) x) (sym e) ∙ names-links k k.links x;
  link_by_name_lem = λ k x l e. ground (arith, e);
  link_add_lem = λ t k x. contains-snoc k.links t.name x;
  link_del_lem = λ l k x. contains-remove l.name k.links x;
  link_set_up_lem = λ l k x. refl;
  addr_add_lem = λ l n k x. refl;
  route_add_lem = λ r k x.
      ap (λ ls. contains ls x) (after_route_add-links (refuses && any (same_route r) k.routes) r k);
  route_del_lem = λ r k x. refl;
  fou_list_lem = λ k fs p e.
      ap (λ r. any (λ f. int_eq f.port (pos p)) (or_nil r)) (sym e) ∙ fous-ports k.ports p;
  fou_add_lem = λ f k x. refl;
  fou_del_lem = λ f k x. refl;
  fou_add-port = λ f k p low e _. ground (arith, e);
  fou_del-port = λ f k p low e _. rw e (receives-removed p k.ports);
}

pub kernel-IsNetlink : IsNetlink kernel
kernel-IsNetlink = kernel_with-IsNetlink true

after_route_add-present :
    (b : Bool) (r : Route) (k : State)
    → succeeded (after_route_add b r k) ≡ true
    → any (same_route r) (after_call (after_route_add b r k)).routes ≡ true
after_route_add-present true r k h = ground arith
after_route_add-present false r k h = ground (arith, same_route_refl r)

after_route_add-kept :
    (b : Bool) (r s : Route) (k : State)
    → any (same_route s) k.routes ≡ true
    → any (same_route s) (after_call (after_route_add b r k)).routes ≡ true
after_route_add-kept true r s k h = h
after_route_add-kept false r s k h = ground (arith, h)

pub kernel-RefusesRepeats : RefusesRepeats kernel
kernel-RefusesRepeats = record {
  has_route = λ k r. any (same_route r) k.routes;
  added_lem = λ r k. after_route_add-present (any (same_route r) k.routes) r k;
  kept_lem = λ r s k. after_route_add-kept (any (same_route r) k.routes) r s k;
  refused_lem = λ r k h. rw h refl;
}
