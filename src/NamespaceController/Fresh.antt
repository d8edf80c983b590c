-- ===== src/NamespaceController/Fresh.antt =====
-- What Reconcile of the namespace controller does where there is no service account.
use kube_overlay_operator.Base.{
  String, ◌≡◌, ◌≢◌, refl, Option, none, some, [], ◌⊎◌, inl, inr, Bool-cases,
}
use kube_overlay_operator.Base.Lists.{All, All-append}
use kube_overlay_operator.Base.Strings.{string_dec}
use kube_overlay_operator.Base.Result.{err, Result-cases}
use kube_overlay_operator.External.Client.{
  is_not_found, Client, Log, Write, create_secret, ApiError, not_found, already_exists, done,
  requeue, failure, ReconcileResult, is_already_exists,
}
use kube_overlay_operator.NamespaceController.{
  overlay_service_account, zero_service_account, reconcile_service_account, reconcile_secret,
  reconcile_role, ensure_service_account, ensure_secret, ensure_role, finish, then_role,
  then_secret, after_creation, reconcile,
}
use kube_overlay_operator.NamespaceController.Provision.{HasSecret, HasRole, then_role-provisioned}

-- A secret that a write creates is not one of the service account: it has no namespace.
abbrev pub IsMisplaced : Write → Type 0
IsMisplaced (create_secret s) = (s.namespace ≡ "") × (s.name ≡ "-token")
IsMisplaced _ = Unit

ensure_secret-IsMisplaced :
    (c : Client) (log : Log)
    → All IsMisplaced log
    → All IsMisplaced (ensure_secret c zero_service_account log).1
unfolding ensure_secret reconcile_secret string_dec
ensure_secret-IsMisplaced c log h = elim (Result-cases (c.get_secret log "" "-token")) [
  | inl (s, found) ↦ rw (found, ensure_secret, reconcile_secret) h
  | inr (e, lost) ↦ elim (Bool-cases (is_not_found e)) [
    | inl missing ↦
        rw (lost, missing, ensure_secret, reconcile_secret)
          (All-append IsMisplaced log _ h ((refl, refl), tt))
    | inr other ↦ rw (lost, other, ensure_secret, reconcile_secret) h
  ]
]

ensure_role-IsMisplaced :
    (c : Client) (ns : String) (log : Log)
    → All IsMisplaced log
    → All IsMisplaced (ensure_role c ns log).1
unfolding ensure_role reconcile_role
ensure_role-IsMisplaced c ns log h =
    elim (Result-cases (c.get_role_binding log ns overlay_service_account)) [
      | inl (role, found) ↦ rw (found, ensure_role) h
      | inr (e, lost) ↦ elim (Bool-cases (is_not_found e)) [
        | inl missing ↦ rw (lost, missing, ensure_role) (All-append IsMisplaced log _ h (tt, tt))
        | inr other ↦ rw (lost, other, ensure_role) h
      ]
    ]

then_role-IsMisplaced :
    (c : Client) (ns : String) (r : Option ApiError × Log)
    → All IsMisplaced r.1
    → All IsMisplaced (then_role c ns r).1
then_role-IsMisplaced c ns (some e, log) h = h
then_role-IsMisplaced c ns (none, log) h =
    finish-IsMisplaced (ensure_role c ns log) (ensure_role-IsMisplaced c ns log h)
  where
    finish-IsMisplaced :
        (r : Option ApiError × Log) → All IsMisplaced r.1 → All IsMisplaced (finish c r).1
    finish-IsMisplaced (none, log) h = h
    finish-IsMisplaced (some e, log) h = h

done-cases : (r : ReconcileResult) → (r ≢ done) ⊎ (r ≡ done)
done-cases done = inr refl
done-cases requeue = inl (λ e. cc)
done-cases (failure x) = inl (λ e. cc)

-- What a run in a namespace without the service account leads to.
abbrev pub IsFresh : Client → String → ReconcileResult × Log → Type 0
IsFresh c ns r =
    All IsMisplaced r.1 × ((r.0 ≢ done) ⊎ (HasSecret c zero_service_account r.1 × HasRole c ns r.1))

then_secret-IsFresh :
    (c : Client) (ns : String) (log : Log)
    → ((log : Log) → c.get_secret log "" "-token" ≢ err already_exists)
    → All IsMisplaced log
    → IsFresh c ns (then_role c ns (ensure_secret c zero_service_account log))
then_secret-IsFresh c ns log read h = (
  then_role-IsMisplaced c ns _ (ensure_secret-IsMisplaced c log h),
  elim (done-cases (then_role c ns (ensure_secret c zero_service_account log)).0) [
    | inl other ↦ inl other
    | inr ended ↦ inr (then_role-provisioned c ns zero_service_account log (read log) ended)
  ],
)

after_creation-IsFresh :
    (c : Client) (ns : String) (r : Option ApiError × Log)
    → ((log : Log) → c.get_secret log "" "-token" ≢ err already_exists)
    → All IsMisplaced r.1
    → IsFresh c ns (then_secret c ns (after_creation r))
after_creation-IsFresh c ns (none, log) read h = then_secret-IsFresh c ns log read h
after_creation-IsFresh c ns (some e, log) read h = elim (Bool-cases (is_already_exists e)) [
  | inl exists ↦ rw exists (then_secret-IsFresh c ns log read h)
  | inr other ↦ rw other (h, inl (λ e. cc))
]

-- In a namespace without the service account, whatever the server answers to the run but the error
-- of a creation to a read of a secret: all secrets that the run asks for have no namespace and the
-- name of no account, and the run succeeds only if there is such a secret, read or created, beside
-- the role binding of the namespace.
pub reconcile-IsFresh :
    (c : Client) (ns : String)
    → ((log : Log) → c.get_secret log "" "-token" ≢ err already_exists)
    → c.get_service_account [] ns overlay_service_account ≡ err not_found
    → IsFresh c ns (reconcile c ns [])
unfolding reconcile ensure_service_account reconcile_service_account
reconcile-IsFresh c ns read lost =
    rw (lost, reconcile, ensure_service_account)
      (after_creation-IsFresh c ns (reconcile_service_account c ns []) read (tt, tt))
