-- ===== src/Tunneler/Shutdown/Removal.antt =====
-- What Shutdown leaves.
use kube_overlay_operator.Base.{
  ℕ, ◌<◌, String, true, false, not, ◌&&◌, ◌≡◌, refl, ◌∙◌, ap, List, [], ◌∷◌, map, arith, Bool-cases,
  inl, inr,
}
use kube_overlay_operator.Base.Lists.{contains}
use kube_overlay_operator.Base.Result.{Result, ok, err}
use kube_overlay_operator.External.Netlink.{Netlink, IsNetlink, Link, succeeded, after_call}
use kube_overlay_operator.Tunneler.Naming.{link_name, fnv64, bytes_of}
use kube_overlay_operator.Tunneler.Naming.Isolation.{code-rune, prefix-append}
use kube_overlay_operator.Tunneler.Shutdown.{
  is_letter, alphanumerics, link_name_matches, delete_links, shutdown,
}

abbrev names : List Link → List String
names ls = map (λ l. l.name) ls

link_name_matches-link_name :
    (encode : ℕ → String) (id : ℕ) (pod_name : String)
    → id < 55296
    → alphanumerics 8 11 (encode (fnv64 (bytes_of pod_name))) ≡ true
    → link_name_matches (link_name encode id pod_name) ≡ is_letter id
unfolding link_name link_name_matches
link_name_matches-link_name encode id pod_name low digits =
    rw (prefix-append id (encode (fnv64 (bytes_of pod_name))), link_name_matches)
      (ground (arith, code-rune id low, digits))

module _ {nl : Netlink} (laws : IsNetlink nl) where
  delete_links-others :
      (ls : List Link) (k : nl.Kernel) (x : String)
      → link_name_matches x ≡ false
      → laws.has_link (delete_links nl ls k) x ≡ laws.has_link k x
  unfolding delete_links
  delete_links-others [] k x h = refl
  delete_links-others (l ∷ ls) k x h = elim (Bool-cases (link_name_matches l.name)) [
    | inl e ↦
        rw (e, delete_links)
          (delete_links-others ls (after_call (nl.link_del l k)) x h
            ∙ ground (arith, laws.link_del_lem l k x))
    | inr e ↦ rw (e, delete_links) (delete_links-others ls k x h)
  ]

  -- Shutdown leaves the links with other names alone, whether or not calls fail.
  pub shutdown-others :
      (k : nl.Kernel) (x : String)
      → link_name_matches x ≡ false
      → laws.has_link (shutdown nl k) x ≡ laws.has_link k x
  unfolding shutdown
  shutdown-others k x h = after (nl.link_list k)
    where
      after :
          (r : Result nl.Error (List Link))
          → laws.has_link (elim r [ err e ↦ k | ok ls ↦ delete_links nl ls k ]) x
            ≡ laws.has_link k x
      after (err e) = refl
      after (ok ls) = delete_links-others ls k x h

  module _ (deletes : (l : Link) (k : nl.Kernel) → succeeded (nl.link_del l k) ≡ true) where
    delete_links-has_link :
        (ls : List Link) (k : nl.Kernel) (x : String)
        → laws.has_link (delete_links nl ls k) x
          ≡ (laws.has_link k x && not (contains (names ls) x && link_name_matches x))
    unfolding delete_links
    delete_links-has_link [] k x = ground arith
    delete_links-has_link (l ∷ ls) k x = elim (Bool-cases (link_name_matches l.name)) [
      | inl e ↦
          rw (e, delete_links)
            (delete_links-has_link ls (after_call (nl.link_del l k)) x
              ∙ ground (arith, laws.link_del_lem l k x, deletes l k, e))
      | inr e ↦ rw (e, delete_links) (delete_links-has_link ls k x ∙ ground (arith, e))
    ]

    -- If the list is read and each deletion succeeds, the links that are left are those before whose
    -- names do not match.
    pub shutdown-has_link :
        (k : nl.Kernel) (ls : List Link) (x : String)
        → nl.link_list k ≡ ok ls
        → laws.has_link (shutdown nl k) x ≡ (laws.has_link k x && not (link_name_matches x))
    unfolding shutdown
    shutdown-has_link k ls x e =
        rw (e, shutdown)
          (delete_links-has_link ls k x ∙ ground (arith, laws.link_list_lem k ls x e))

    -- If the list is read and each deletion succeeds, a link of an id up to 55295, whose name goes on
    -- with 8 to 11 letters and digits behind the prefix, is left just if the id is no letter.
    pub shutdown-link_name :
        (encode : ℕ → String) (id : ℕ) (pod_name : String) (k : nl.Kernel) (ls : List Link)
        → id < 55296
        → alphanumerics 8 11 (encode (fnv64 (bytes_of pod_name))) ≡ true
        → nl.link_list k ≡ ok ls
        → laws.has_link (shutdown nl k) (link_name encode id pod_name)
          ≡ (laws.has_link k (link_name encode id pod_name) && not (is_letter id))
    unfolding link_name
    shutdown-link_name encode id pod_name k ls low digits e =
        shutdown-has_link k ls (link_name encode id pod_name) e
        ∙ ap (λ b. laws.has_link k (link_name encode id pod_name) && not b)
            (link_name_matches-link_name encode id pod_name low digits)
