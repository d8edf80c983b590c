-- ===== src/Tunneler/Links/Ports.antt =====
-- The port that receives the packets of a network.
use kube_overlay_operator.Base.{
  ℕ, ◌≤◌, Bool, true, false, ◌≡◌, refl, ◌∙◌, ap, sym, Option, none, some, List, [], ◌∷◌, arith,
  nat_eq→eq, Option-cases, inl, inr,
}
use kube_overlay_operator.Base.Int.{ℤ, pos, negsuc, int_eq}
use kube_overlay_operator.Base.Lists.{any, find}
use kube_overlay_operator.Base.Outcome.{pure, continue, ◌>>◌, Post, continue-Post}
use kube_overlay_operator.Base.Result.{Result, ok, err}
use kube_overlay_operator.Api.{OverlayNetwork}
use kube_overlay_operator.External.Lo.{Lo, IsLo, documented_lo, transport_lo}
use kube_overlay_operator.External.Netlink.{Netlink, IsNetlink, Fou, succeeded, after_call}
use kube_overlay_operator.Net.Text.{NetText}
use kube_overlay_operator.Tunneler.{TunnelReconciler, World, answered, or_fail, query}
use kube_overlay_operator.Tunneler.Links.{remove_fou, add_fou, reconcile_fou}

int_eq→eq : (a b : ℤ) → int_eq a b ≡ true → a ≡ b
int_eq→eq (pos a) (pos b) h = ap pos (nat_eq→eq a b h)
int_eq→eq (negsuc a) (negsuc b) h = ap negsuc (nat_eq→eq a b h)
int_eq→eq (pos a) (negsuc b) h = ground arith
int_eq→eq (negsuc a) (pos b) h = ground arith

module _ {A : Type 0} (p : A → Bool) where
  find-any : (xs : List A) (a : A) → find p xs ≡ some a → any p xs ≡ true
  find-any [] a h = ground arith
  find-any (x ∷ xs) a h = ground (arith, find-any xs a)

  find-passes : (xs : List A) (a : A) → find p xs ≡ some a → p a ≡ true
  find-passes [] a h = ground arith
  find-passes (x ∷ xs) a h = ground (arith, find-passes xs a, ap p)

  find_none-any : (xs : List A) → find p xs ≡ none → any p xs ≡ false
  find_none-any [] h = refl
  find_none-any (x ∷ xs) h = ground (arith, find_none-any xs)

module _ (lo : Lo) (net : NetText) {nl : Netlink} (laws : IsNetlink nl) (nw : OverlayNetwork)
    (p : ℕ) where
  -- The port receives just if it should.
  abbrev Receives : Bool → World nl → Type 0
  Receives b w = laws.has_fou w.kernel (pos p) ≡ b

  abbrev Anything : World nl → Type 0
  Anything w = Unit

  answered-Receives :
      (b : Bool) (self : TunnelReconciler) (r : Option nl.Error × nl.Kernel)
      → (succeeded r ≡ true → laws.has_fou (after_call r) (pos p) ≡ b)
      → Post (λ _. Receives b) Anything (answered nl r self)
  answered-Receives b self (none, k) h = h refl
  answered-Receives b self (some e, k) h = tt

  module _ (low : p ≤ 65535) (port : nw.spec.port ≡ pos p) where
    known-Receives :
        (b : Bool) (fou : Fou) (w : World nl)
        → int_eq fou.port nw.spec.port ≡ true
        → laws.has_fou w.kernel (pos p) ≡ true
        → Post
            (λ _. Receives b)
            Anything
            ((remove_fou lo net nl (some fou) b >> add_fou lo net nl nw (some fou) b) w)
    unfolding remove_fou add_fou continue
    known-Receives true fou w same h = h
    known-Receives false fou w same h =
        continue-Post (λ _. Receives false) (λ _. Receives false) Anything
          (answered nl (nl.fou_del fou w.kernel) w.self) (λ _. pure tt)
          (answered-Receives false w.self (nl.fou_del fou w.kernel)
            (laws.fou_del-port fou w.kernel p low (int_eq→eq fou.port nw.spec.port same ∙ port)))
          (λ _ w' h. h)

    unknown-Receives :
        (b : Bool) (w : World nl)
        → laws.has_fou w.kernel (pos p) ≡ false
        → Post
            (λ _. Receives b)
            Anything
            ((remove_fou lo net nl none b >> add_fou lo net nl nw none b) w)
    unfolding remove_fou add_fou continue
    unknown-Receives false w h = h
    unknown-Receives true w h =
        answered-Receives true w.self _ (laws.fou_add-port _ w.kernel p low port)

    found-Receives :
        (b : Bool) (fous : List Fou) (w : World nl)
        → any (λ f. int_eq f.port nw.spec.port) fous ≡ laws.has_fou w.kernel (pos p)
        → Post
            (λ _. Receives b)
            Anything
            ((remove_fou lo net nl (find (λ f. int_eq f.port nw.spec.port) fous) b
                >> add_fou lo net nl nw (find (λ f. int_eq f.port nw.spec.port) fous) b)
              w)
    found-Receives b fous w listed =
        let test = λ (f : Fou). int_eq f.port nw.spec.port in
        elim (Option-cases (find test fous)) [
          | inr (fou, e) ↦ rw e (
              known-Receives b fou w (find-passes test fous fou e)
                (sym listed ∙ find-any test fous fou e))
          | inl e ↦ rw e (unknown-Receives b w (sym listed ∙ find_none-any test fous e))
        ]

    listed-Receives :
        (w : World nl) (r : Result nl.Error (List Fou))
        → nl.fou_list w.kernel ≡ r
        → Post
            (λ fous w'. any (λ f. int_eq f.port nw.spec.port) fous ≡ laws.has_fou w'.kernel (pos p))
            Anything
            (or_fail nl r w)
    listed-Receives w (ok fous) e = rw port (laws.fou_list_lem w.kernel fous p e)
    listed-Receives w (err _) e = tt

module _ {lo : Lo} (lo_laws : IsLo lo) (net : NetText) {nl : Netlink} (laws : IsNetlink nl)
    (nw : OverlayNetwork) where
  -- If a network's port is one of UDP, it receives after reconcileFOU without an error just if it
  -- should.
  pub reconcile_fou-port :
      (p : ℕ) (b : Bool) (w : World nl)
      → p ≤ 65535
      → nw.spec.port ≡ pos p
      → Post
          (λ _ w'. laws.has_fou w'.kernel (pos p) ≡ b)
          (λ _. Unit)
          (reconcile_fou lo net nl nw b w)
  unfolding reconcile_fou
  reconcile_fou-port p b w low port =
      transport_lo lo_laws
        (λ l.
          Post (λ _ w'. laws.has_fou w'.kernel (pos p) ≡ b) (λ _. Unit)
            (reconcile_fou l net nl nw b w))
        (continue-Post
          (λ fous w'. any (λ f. int_eq f.port nw.spec.port) fous ≡ laws.has_fou w'.kernel (pos p))
          (λ _ w'. laws.has_fou w'.kernel (pos p) ≡ b) (λ _. Unit) (query nl nl.fou_list w) _
          (listed-Receives documented_lo net laws nw p low port w (nl.fou_list w.kernel) refl)
          (λ fous w' listed. found-Receives documented_lo net laws nw p low port b fous w' listed))
