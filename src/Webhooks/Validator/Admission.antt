-- ===== src/Webhooks/Validator/Admission.antt =====
-- Which networks the validator lets in.
use kube_overlay_operator.Base.{
  ℕ, suc, ◌≤◌, String, true, not, ◌≡◌, ◌≢◌, refl, sym, ◌∙◌, ap, none, some, List, [], ◌∷◌, arith,
  ◌↔◌, Bool-cases, Option-cases, inl, inr,
}
use kube_overlay_operator.Base.Lists.{All}
use kube_overlay_operator.Base.Int.{ℤ, pos, negsuc, int_eq}
use kube_overlay_operator.Api.{OverlayNetwork, OverlayNetworkSpec}
use kube_overlay_operator.External.Lo.{Lo, IsLo, documented_lo, transport_lo, find_index_from}
use kube_overlay_operator.Net.Text.{NetText}
use kube_overlay_operator.Webhooks.Response.{allowed}
use kube_overlay_operator.Webhooks.Validator.{
  create, update, Request, is_cidr, check_create, check_update, check_operation, check_routable,
  handle,
}

module _ (net : NetText) where
  abbrev pub IsCidr : String → Type 0
  IsCidr s = net.parse_cidr s ≢ none

  -- A port of UDP, and networks that parse.
  pub record IsValidSpec (spec : OverlayNetworkSpec) : Type 0 where
    pub port : ℕ
    pub port_eq : spec.port ≡ pos port
    pub port_low : 1 ≤ port
    pub port_high : port ≤ 65535
    pub allocatable : IsCidr spec.allocatable_cidr
    pub routable : All IsCidr spec.routable_cidrs

  is_cidr_iff : (s : String) → (is_cidr documented_lo net s ≡ true) ↔ IsCidr s
  is_cidr_iff s = elim (Option-cases (net.parse_cidr s)) [
    | inl bad ↦ (λ h. absurd (ground (arith, bad)), λ h. absurd (h bad))
    | inr (r, good) ↦ (λ h e. cc, λ h. rw (good, is_cidr))
  ]

  invalid_index-none :
      (i : ℕ) (cidrs : List String)
      → find_index_from i cidrs (λ s. not (is_cidr documented_lo net s)) ≡ none
      → All IsCidr cidrs
  invalid_index-none i [] e = tt
  invalid_index-none i (s ∷ rest) e = elim (Bool-cases (is_cidr documented_lo net s)) [
    | inl good ↦ ((is_cidr_iff s).0 good, invalid_index-none (suc i) rest (ground (arith, good)))
    | inr bad ↦ absurd (ground (arith, bad))
  ]

  invalid_index_of_All :
      (i : ℕ) (cidrs : List String)
      → All IsCidr cidrs
      → find_index_from i cidrs (λ s. not (is_cidr documented_lo net s)) ≡ none
  invalid_index_of_All i [] h = refl
  invalid_index_of_All i (s ∷ rest) h =
      rw ((is_cidr_iff s).1 h.0) (invalid_index_of_All (suc i) rest h.1)

  check_routable_iff :
      (cidrs : List String)
      → (check_routable documented_lo net cidrs ≡ allowed "ok") ↔ All IsCidr cidrs
  unfolding check_routable
  check_routable_iff cidrs = (
    λ h. invalid_index-none 0 cidrs (ground arith),
    λ h. rw (invalid_index_of_All 0 cidrs h, check_routable),
  )

  check_create-none :
      (spec : OverlayNetworkSpec) (p : ℤ)
      → spec.port ≡ p
      → check_create documented_lo net spec ≡ none
      → (port : ℕ) × (p ≡ pos port)
        × (1 ≤ port)
        × (port ≤ 65535)
        × (is_cidr documented_lo net spec.allocatable_cidr ≡ true)
  unfolding check_create
  check_create-none spec (pos port) at h =
      (port, refl, ground (arith, at), ground (arith, at), ground (arith, at))
  check_create-none spec (negsuc n) at h = absurd (ground (arith, at))

  check_create_of_valid :
      (spec : OverlayNetworkSpec) (port : ℕ)
      → spec.port ≡ pos port
      → 1 ≤ port
      → port ≤ 65535
      → is_cidr documented_lo net spec.allocatable_cidr ≡ true
      → check_create documented_lo net spec ≡ none
  unfolding check_create
  check_create_of_valid spec port at low high good = ground arith

  abbrev pub creation : OverlayNetwork → Request
  creation nw = record { operation = create; object = some nw; old_object = none }

  abbrev pub update_of : OverlayNetwork → OverlayNetwork → Request
  update_of old nw = record { operation = update; object = some nw; old_object = some old }

  creation_iff :
      (nw : OverlayNetwork)
      → (handle documented_lo net (creation nw) ≡ allowed "ok") ↔ IsValidSpec nw.spec
  unfolding handle check_operation
  creation_iff nw = (admitted, valid)
    where
      admitted : handle documented_lo net (creation nw) ≡ allowed "ok" → IsValidSpec nw.spec
      admitted h =
          let passed : check_create documented_lo net nw.spec ≡ none = ground arith in
          let (port, at, low, high, good) = check_create-none nw.spec nw.spec.port refl passed in
          record {
            port = port;
            port_eq = at;
            port_low = low;
            port_high = high;
            allocatable = (is_cidr_iff nw.spec.allocatable_cidr).0 good;
            routable = (check_routable_iff nw.spec.routable_cidrs).0 (rw (passed, handle) at h);
          }

      valid : IsValidSpec nw.spec → handle documented_lo net (creation nw) ≡ allowed "ok"
      valid v =
          let passed =
            check_create_of_valid nw.spec v.port v.port_eq v.port_low v.port_high
              ((is_cidr_iff nw.spec.allocatable_cidr).1 v.allocatable) in
          rw (passed, handle) ((check_routable_iff nw.spec.routable_cidrs).1 v.routable)

  int_eq→eq : (a b : ℤ) → int_eq a b ≡ true → a ≡ b
  int_eq→eq (pos a) (pos b) h = ground arith
  int_eq→eq (pos a) (negsuc b) h = cc
  int_eq→eq (negsuc a) (pos b) h = cc
  int_eq→eq (negsuc a) (negsuc b) h = ground arith

  -- The parts of a network that no update may change.
  abbrev pub SameCore : OverlayNetwork → OverlayNetwork → Type 0
  SameCore old nw =
      (nw.spec.port ≡ old.spec.port) × (nw.spec.allocatable_cidr ≡ old.spec.allocatable_cidr)

  update_allowed :
      (old nw : OverlayNetwork)
      → handle documented_lo net (update_of old nw) ≡ allowed "ok"
      → SameCore old nw × All IsCidr nw.spec.routable_cidrs
  unfolding handle check_operation
  update_allowed old nw h =
      let passed : check_update documented_lo net nw.spec (some old) ≡ none = ground arith in
      let same : int_eq old.spec.port nw.spec.port ≡ true = ground arith in
      (
        (sym (int_eq→eq old.spec.port nw.spec.port same), ground arith),
        (check_routable_iff nw.spec.routable_cidrs).0 (rw (passed, handle) at h),
      )

-- The networks that the validator has let in under one name, since its creation.
pub data History (lo : Lo) (net : NetText) (first : OverlayNetwork) : OverlayNetwork → Type 0 where
  created : handle lo net (creation net first) ≡ allowed "ok" → History lo net first first
  updated :
      {old : OverlayNetwork} (nw : OverlayNetwork)
      → History lo net first old
      → handle lo net (update_of net old nw) ≡ allowed "ok"
      → History lo net first nw

module _ {lo : Lo} (laws : IsLo lo) (net : NetText) where
  -- The validator allows the creation of a network just if its port is between 1 and 65535 and its
  -- allocatable network and all of its routable networks parse. The networks of its optional routes
  -- are not tested.
  pub handle-creation_iff :
      (nw : OverlayNetwork)
      → (handle lo net (creation net nw) ≡ allowed "ok") ↔ IsValidSpec net nw.spec
  handle-creation_iff nw =
      transport_lo laws
        (λ lo. (handle lo net (creation net nw) ≡ allowed "ok") ↔ IsValidSpec net nw.spec)
        (creation_iff net nw)

  pub update-SameCore :
      (old nw : OverlayNetwork)
      → handle lo net (update_of net old nw) ≡ allowed "ok"
      → SameCore net old nw × All (IsCidr net) nw.spec.routable_cidrs
  update-SameCore old nw =
      transport_lo laws
        (λ lo.
          handle lo net (update_of net old nw) ≡ allowed "ok"
          → SameCore net old nw × All (IsCidr net) nw.spec.routable_cidrs)
        (update_allowed net old nw)

  -- A network that the validator let in, and every update of it that it let in, is valid and has
  -- the port and the allocatable network of its creation.
  pub History-IsValidSpec :
      (first nw : OverlayNetwork)
      → History lo net first nw
      → IsValidSpec net nw.spec × SameCore net first nw
  History-IsValidSpec first _ (created h) = ((handle-creation_iff first).0 h, (refl, refl))
  History-IsValidSpec first _ (updated {old} nw past h) =
      let (v, (port, cidr)) = History-IsValidSpec first old past in
      let ((port', cidr'), routable) = update-SameCore old nw h in
      (
        record {
          port = v.port;
          port_eq = port' ∙ v.port_eq;
          port_low = v.port_low;
          port_high = v.port_high;
          allocatable = λ e. v.allocatable (ap net.parse_cidr (sym cidr') ∙ e);
          routable = routable;
        },
        (port' ∙ port, cidr' ∙ cidr),
      )
