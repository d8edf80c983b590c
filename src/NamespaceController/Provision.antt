-- ===== src/NamespaceController/Provision.antt =====
-- What Reconcile of the namespace controller provisions.
use mathlib.Core.List.{append_assoc, append-nil}
use kube_overlay_operator.Base.{
  sym, subst, ap, ◌∙◌, ◌++◌, String, ◌<>◌, ◌≡◌, ◌≢◌, refl, ap, Option, none, some, List, [], ◌∷◌,
  ◌⊎◌, inl, inr, arith, Bool-cases, nat_eq,
}
use kube_overlay_operator.Base.Lists.{length}
use kube_overlay_operator.Base.Result.{ok, err, Result-cases}
use kube_overlay_operator.Api.{ServiceAccount, Secret, RoleBinding}
use kube_overlay_operator.External.Client.{
  is_not_found, Client, Log, Write, create_secret, create_role_binding, ApiError, already_exists,
  done,
}
use kube_overlay_operator.NamespaceController.{
  overlay_service_account, unless_exists, token_secret, sidecar_role, reconcile_secret,
  reconcile_role, ensure_service_account, ensure_secret, ensure_role, finish, then_role, reconcile,
}

-- The write is in the log, and was answered without an error but that the object is there.
pub record WasSent (c : Client) (log : Log) (w : Write) : Type 0 where
  pub before : Log
  pub after : Log
  pub sent : log ≡ before ++ w ∷ after
  pub accepted : unless_exists (c.answer before w) ≡ none

-- The namespace has the role binding: it was read, or it was created.
abbrev pub HasRole : Client → String → Log → Type 0
HasRole c ns log =
    ((read : Log) × ((role : RoleBinding) × (c.get_role_binding read ns overlay_service_account
          ≡ ok role)))
    ⊎ WasSent c log (create_role_binding (sidecar_role ns))

-- The account has a secret: it names one, or the secret was read or created.
abbrev pub HasSecret : Client → ServiceAccount → Log → Type 0
HasSecret c sa log =
    (sa.secrets ≢ [])
    ⊎ ((read : Log) × ((s : Secret) × (c.get_secret read sa.namespace (sa.name <> "-token")
            ≡ ok s)))
    ⊎ WasSent c log (create_secret (token_secret sa))

WasSent-append :
    (c : Client) (log rest : Log) (w : Write) → WasSent c log w → WasSent c (log ++ rest) w
WasSent-append c log rest w h = record {
  before = h.before;
  after = h.after ++ rest;
  sent = ap (λ l. l ++ rest) h.sent ∙ rw append_assoc refl;
  accepted = h.accepted;
}

HasSecret-append :
    (c : Client) (sa : ServiceAccount) (log rest : Log)
    → HasSecret c sa log
    → HasSecret c sa (log ++ rest)
HasSecret-append c sa log rest (inl named) = inl named
HasSecret-append c sa log rest (inr (inl read)) = inr (inl read)
HasSecret-append c sa log rest (inr (inr sent)) = inr (inr (WasSent-append c log rest _ sent))

-- The last step only adds to the log.
ensure_role-log :
    (c : Client) (ns : String) (log : Log) → (rest : Log) × ((ensure_role c ns log).1 ≡ log ++ rest)
unfolding ensure_role reconcile_role
ensure_role-log c ns log = elim (Result-cases (c.get_role_binding log ns overlay_service_account)) [
  | inl (role, found) ↦ ([], rw (found, ensure_role, append-nil) refl)
  | inr (e, lost) ↦ elim (Bool-cases (is_not_found e)) [
    | inl missing ↦ (create_role_binding (sidecar_role ns) ∷ [], ground (arith, lost, missing))
    | inr other ↦ ([], rw (lost, other, ensure_role, append-nil) refl)
  ]
]

ensure_role-HasRole :
    (c : Client) (ns : String) (log : Log)
    → (ensure_role c ns log).0 ≡ none
    → HasRole c ns (ensure_role c ns log).1
unfolding ensure_role reconcile_role
ensure_role-HasRole c ns log h =
    elim (Result-cases (c.get_role_binding log ns overlay_service_account)) [
      | inl (role, found) ↦ inl (log, (role, found))
      | inr (e, lost) ↦ inr (record {
        before = log;
        after = [];
        sent = ground (arith, lost);
        accepted = ground (arith, lost);
      })
    ]

reconcile_secret-HasSecret :
    (c : Client) (sa : ServiceAccount) (log : Log)
    → c.get_secret log sa.namespace (sa.name <> "-token") ≢ err already_exists
    → unless_exists (reconcile_secret c sa log).0 ≡ none
    → HasSecret c sa (reconcile_secret c sa log).1
unfolding reconcile_secret
reconcile_secret-HasSecret c sa log read h =
    elim (Result-cases (c.get_secret log sa.namespace (sa.name <> "-token"))) [
      | inl (s, found) ↦ inr (inl (log, (s, found)))
      | inr (e, lost) ↦ inr (
          inr (record {
            before = log;
            after = [];
            sent = ground (arith, lost, read);
            accepted = ground (arith, lost, read);
          }))
    ]

ensure_secret-HasSecret :
    (c : Client) (sa : ServiceAccount) (log : Log)
    → c.get_secret log sa.namespace (sa.name <> "-token") ≢ err already_exists
    → (ensure_secret c sa log).0 ≡ none
    → HasSecret c sa (ensure_secret c sa log).1
unfolding ensure_secret
ensure_secret-HasSecret c sa log read h = elim (Bool-cases (nat_eq (length sa.secrets) 0)) [
  | inr named ↦ inl (λ e. cc (ap (λ (l : List String). nat_eq (length l) 0) e))
  | inl unnamed ↦
      rw (unnamed, ensure_secret)
        (reconcile_secret-HasSecret c sa log read (rw (unnamed, ensure_secret) at h))
]

finish-done :
    (c : Client) (r : Option ApiError × Log)
    → (finish c r).0 ≡ done
    → (r.0 ≡ none) × ((finish c r).1 ≡ r.1)
finish-done c (none, log) e = (refl, refl)
finish-done c (some x, log) e = cc

then_role-done :
    (c : Client) (ns : String) (r : Option ApiError × Log)
    → (then_role c ns r).0 ≡ done
    → (r.0 ≡ none)
      × HasRole c ns (then_role c ns r).1
      × ((rest : Log) × ((then_role c ns r).1 ≡ r.1 ++ rest))
then_role-done c ns (some e, log) h = cc
then_role-done c ns (none, log) h =
    let (ended, same) = finish-done c (ensure_role c ns log) h in
    let (rest, grown) = ensure_role-log c ns log in
    (
      refl,
      subst (HasRole c ns) (sym same) (ensure_role-HasRole c ns log ended),
      (rest, same ∙ grown),
    )

pub then_role-provisioned :
    (c : Client) (ns : String) (sa : ServiceAccount) (log : Log)
    → c.get_secret log sa.namespace (sa.name <> "-token") ≢ err already_exists
    → (then_role c ns (ensure_secret c sa log)).0 ≡ done
    → HasSecret c sa (then_role c ns (ensure_secret c sa log)).1
      × HasRole c ns (then_role c ns (ensure_secret c sa log)).1
then_role-provisioned c ns sa log read h =
    let (secured, role, (rest, grown)) = then_role-done c ns (ensure_secret c sa log) h in
    (
      subst (HasSecret c sa) (sym grown) (
          HasSecret-append c sa (ensure_secret c sa log).1 rest
            (ensure_secret-HasSecret c sa log read secured)),
      role,
    )

-- Where the service account is there, a run that succeeds leaves it with a secret and the namespace
-- with the role binding: each was read, or the run has sent its creation and it was accepted, or
-- the account names a secret. It is assumed that the server does not answer a read of the secret
-- by the error of a creation.
pub reconcile-done :
    (c : Client) (ns : String) (sa : ServiceAccount)
    → c.get_secret [] sa.namespace (sa.name <> "-token") ≢ err already_exists
    → c.get_service_account [] ns overlay_service_account ≡ ok sa
    → (reconcile c ns []).0 ≡ done
    → HasSecret c sa (reconcile c ns []).1 × HasRole c ns (reconcile c ns []).1
unfolding reconcile ensure_service_account
reconcile-done c ns sa read found h =
    rw (found, reconcile, ensure_service_account)
      (then_role-provisioned c ns sa [] read (rw (found, reconcile, ensure_service_account) at h))
