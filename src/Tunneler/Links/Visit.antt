-- ===== src/Tunneler/Links/Visit.antt =====
-- The loop over the links of the kernel.
use kube_overlay_operator.Base.{
  String, Bool, true, false, not, ◌&&◌, ◌≡◌, refl, ◌∙◌, ap, sym, subst, Option, none, some, List,
  [], ◌∷◌, map, ◌==◌, has_prefix, arith, Bool-cases, Option-cases, inl, inr,
}
use kube_overlay_operator.Base.Dict.{Dict, lookup, insert, keys}
use kube_overlay_operator.Base.Lists.{any, contains, Distinct}
use kube_overlay_operator.Base.Outcome.{pure, continue, Post, continue-Post, Post-weaken}
use kube_overlay_operator.External.Lo.{Lo}
use kube_overlay_operator.External.Netlink.{Netlink, IsNetlink, Link, succeeded, after_call}
use kube_overlay_operator.Net.Text.{NetText}
use kube_overlay_operator.Tunneler.{LinkInfo, World, answered}
use kube_overlay_operator.Tunneler.Links.{visit_link, visit_links}

-- An entry of a link that is still to be set up.
abbrev pub is_pending : String → String × LinkInfo → Bool
is_pending x (name, info) = name == x && not info.processed

abbrev pub names : List Link → List String
names ls = map (λ l. l.name) ls

keys-insert :
    (k : String) (v : LinkInfo) (m : Dict LinkInfo)
    → contains (keys m) k ≡ true
    → keys (insert k v m) ≡ keys m
keys-insert k v ((j, w) ∷ m) h = ground (arith, keys-insert k v m)
keys-insert k v [] h = ground arith

contains-lookup :
    (k : String) (v : LinkInfo) (m : Dict LinkInfo)
    → lookup k m ≡ some v
    → contains (keys m) k ≡ true
contains-lookup k v ((j, w) ∷ m) h = ground (arith, contains-lookup k v m)
contains-lookup k v [] h = ground arith

missing-contains :
    (k : String) (m : Dict LinkInfo) → lookup k m ≡ none → contains (keys m) k ≡ false
missing-contains k ((j, w) ∷ m) h = ground (arith, missing-contains k m)
missing-contains k [] h = refl

pub pending-absent :
    (x : String) (m : Dict LinkInfo) → contains (keys m) x ≡ false → any (is_pending x) m ≡ false
pending-absent x ((j, w) ∷ m) h = ground (arith, pending-absent x m)
pending-absent x [] h = refl

pending-insert :
    (k : String) (v : LinkInfo) (m : Dict LinkInfo) (x : String)
    → Distinct (keys m)
    → contains (keys m) k ≡ true
    → v.processed ≡ true
    → any (is_pending x) (insert k v m) ≡ (any (is_pending x) m && not (k == x))
pending-insert k v ((j, w) ∷ m) x d h p = ground (arith, pending-insert k v m x, pending-absent x m)
pending-insert k v [] x d h p = ground arith

module _ {nl : Netlink} (laws : IsNetlink nl) (prefix : String) where
  abbrev pub here : World nl → String → Bool
  here w x = laws.has_link w.kernel x

  -- The links without the prefix are the same in both.
  abbrev pub Isolated : World nl → World nl → Type 0
  Isolated w w' = (x : String) → has_prefix x prefix ≡ false → here w' x ≡ here w x

  -- Of the links visited, those with the prefix that are no target are gone, and the others with the
  -- prefix are no more to be set up.
  pub record Visited (ls : List Link) (target : Dict LinkInfo) (w : World nl)
      (target' : Dict LinkInfo) (w' : World nl) : Type 0 where
    pub links :
        (x : String)
        → here w' x ≡ (
            here w x
            && not
                (contains (names ls) x && (has_prefix x prefix && not (contains (keys target) x))))
    pub pending :
        (x : String)
        → any (is_pending x) target'
          ≡ (any (is_pending x) target && not (contains (names ls) x && has_prefix x prefix))
    pub same_keys : keys target' ≡ keys target

  deleted-Visited :
      (link : Link) (target : Dict LinkInfo) (w : World nl) (r : Option nl.Error × nl.Kernel)
      → has_prefix link.name prefix ≡ true
      → contains (keys target) link.name ≡ false
      → ((x : String)
          → laws.has_link (after_call r) x ≡ (here w x && not (succeeded r && link.name == x)))
      → Post
          (Visited (link ∷ []) target w)
          (Isolated w)
          (continue (answered nl r w.self) (λ _. pure target))
  unfolding continue
  deleted-Visited link target w (none, k) p absent h = record {
    links = λ x. ground (arith, h x);
    pending = λ x. ground (arith, pending-absent x target);
    same_keys = refl;
  }
  deleted-Visited link target w (some e, k) p absent h = λ x q. ground (arith, h x)

  Visited-cons :
      (link : Link) (ls : List Link) (target target1 target2 : Dict LinkInfo) (w w1 w2 : World nl)
      → Visited (link ∷ []) target w target1 w1
      → Visited ls target1 w1 target2 w2
      → Visited (link ∷ ls) target w target2 w2
  Visited-cons link ls target target1 target2 w w1 w2 v u = record {
    links = λ x.
        let same : contains (keys target1) x ≡ contains (keys target) x =
          ap (λ ks. contains ks x) v.same_keys in
        ground (arith, v.links x, u.links x);
    pending = λ x. ground (arith, v.pending x, u.pending x);
    same_keys = u.same_keys ∙ v.same_keys;
  }

  pub Visited-Isolated :
      (ls : List Link) (target target' : Dict LinkInfo) (w w' : World nl)
      → Visited ls target w target' w'
      → Isolated w w'
  Visited-Isolated ls target target' w w' v x q = ground (arith, v.links x)

module _ (lo : Lo) (net : NetText) {nl : Netlink} (laws : IsNetlink nl) (prefix : String) where
  visit_link-Visited :
      (link : Link) (target : Dict LinkInfo) (w : World nl)
      → Distinct (keys target)
      → Post
          (Visited laws prefix (link ∷ []) target w)
          (Isolated laws prefix w)
          (visit_link lo net nl prefix link target w)
  unfolding visit_link
  visit_link-Visited link target w d = elim (Bool-cases (has_prefix link.name prefix)) [
    | inr other ↦
        rw (other, visit_link)
          record { links = λ x. ground arith; pending = λ x. ground arith; same_keys = refl }
    | inl own ↦ elim (Option-cases (lookup link.name target)) [
      | inr (info, found) ↦
          rw (own, found, visit_link)
            record {
              links = λ x. ground (arith, contains-lookup link.name info target found);
              pending = λ x. ground (
                arith,
                pending-insert link.name (record info { processed = true }) target x d
                    (contains-lookup link.name info target found) refl,
              );
              same_keys = keys-insert _ _ target (contains-lookup link.name info target found);
            }
      | inl missing ↦
          rw (own, missing, visit_link)
            (deleted-Visited laws prefix link target w (nl.link_del link w.kernel) own
              (missing-contains link.name target missing) (laws.link_del_lem link w.kernel))
    ]
  ]

  -- It is so after the loop, if each target stands once; in any case the links without the prefix are
  -- the same.
  pub visit_links-Visited :
      (ls : List Link) (target : Dict LinkInfo) (w : World nl)
      → Distinct (keys target)
      → Post
          (Visited laws prefix ls target w)
          (Isolated laws prefix w)
          (visit_links lo net nl prefix ls target w)
  unfolding visit_links
  visit_links-Visited [] target w d = record {
    links = λ x. ground arith;
    pending = λ x. ground arith;
    same_keys = refl;
  }
  visit_links-Visited (link ∷ ls) target w d =
      continue-Post (Visited laws prefix (link ∷ []) target w)
        (Visited laws prefix (link ∷ ls) target w) (Isolated laws prefix w)
        (visit_link lo net nl prefix link target w)
        (λ target1. visit_links lo net nl prefix ls target1) (visit_link-Visited link target w d)
        (λ target1 w1 v.
          Post-weaken _ _ _ _ (visit_links lo net nl prefix ls target1 w1)
            (λ target2 w2 u. Visited-cons laws prefix link ls target target1 target2 w w1 w2 v u)
            (λ w2 iso x q.
              iso x q ∙ Visited-Isolated laws prefix (link ∷ []) target target1 w w1 v x q)
            (visit_links-Visited ls target1 w1 (subst Distinct (sym v.same_keys) d)))
