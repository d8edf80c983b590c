-- ===== src/Webhooks/Injector/Injection.antt =====
-- What the injection does to a pod.
use kube_overlay_operator.Base.{
  ℕ, suc, ◌+◌, String, Bool, true, false, ◌≡◌, refl, sym, subst, some, List, [], ◌∷◌, ◌++◌, ◌==◌,
  arith, if◌then◌else◌, Bool-cases, inl, inr,
}
use kube_overlay_operator.Base.Strings.{string_dec}
use kube_overlay_operator.Base.Lists.{any, any-append, filter}
use kube_overlay_operator.Base.Result.{ok, Result-cases}
use kube_overlay_operator.Api.{Pod, Container, Volume, ServiceAccount}
use kube_overlay_operator.External.Lo.{Lo, IsLo, documented_lo, transport_lo}
use kube_overlay_operator.External.Client.{Client}
use kube_overlay_operator.NamespaceController.{overlay_service_account}
use kube_overlay_operator.PodController.Reconcile.{has_overlay_label, pod_finalizer}
use kube_overlay_operator.Webhooks.Response.{denied, reserved_volume_name, patched}
use kube_overlay_operator.Webhooks.Injector.{
  Environment, modules_volume_name, sidecar_api_access, sidecar, sidecar_volumes, token_secret_name,
  inject, mounts_modules, has_modules_volume, admit, handle,
}

abbrev pub mounts : String → Container → Bool
mounts name k = any (λ v. v.name == name) k.volume_mounts

-- How often a name stands among volumes.
abbrev pub count_volumes : String → List Volume → ℕ
count_volumes name [] = 0
count_volumes name (v ∷ vs) =
    if v.name == name then suc (count_volumes name vs) else count_volumes name vs

count_volumes-append :
    (name : String) (xs ys : List Volume)
    → count_volumes name (xs ++ ys) ≡ count_volumes name xs + count_volumes name ys
count_volumes-append name [] ys = omega arith
count_volumes-append name (x ∷ xs) ys = ground (arith, count_volumes-append name xs ys)

count_volumes_absent :
    (name : String) (vs : List Volume)
    → any (λ v. v.name == name) vs ≡ false
    → count_volumes name vs ≡ 0
count_volumes_absent name [] h = refl
count_volumes_absent name (v ∷ vs) h = ground (arith, count_volumes_absent name vs)

-- The pod behind an injection: the sidecar is its last container, the volumes of the sidecar are
-- its last, of which one holds the token of the service account that the API server has for the
-- namespace, and the finalizer is its last. What stood in the pod is kept in front, and the rest is
-- as it was. The volume of the modules is new, and of the containers, which the init containers do
-- not belong to, the sidecar alone mounts it.
pub record IsInjected (c : Client) (env : Environment) (namespace : String) (pod pod' : Pod)
    : Type 0 where
  pub sa : ServiceAccount
  pub found : c.get_service_account [] namespace overlay_service_account ≡ ok sa
  pub volumes_eq : pod'.volumes ≡ pod.volumes ++ sidecar_volumes (token_secret_name sa)
  pub containers_eq : pod'.containers ≡ pod.containers ++ sidecar env ∷ []
  pub finalizers_eq : pod'.meta.finalizers ≡ pod.meta.finalizers ++ pod_finalizer ∷ []
  pub init_containers_eq : pod'.init_containers ≡ pod.init_containers
  pub name_eq : pod'.meta.name ≡ pod.meta.name
  pub namespace_eq : pod'.meta.namespace ≡ pod.meta.namespace
  pub labels_eq : pod'.meta.labels ≡ pod.meta.labels
  pub annotations_eq : pod'.meta.annotations ≡ pod.meta.annotations
  pub deletion_timestamp_eq : pod'.meta.deletion_timestamp ≡ pod.meta.deletion_timestamp
  pub pod_ip_eq : pod'.pod_ip ≡ pod.pod_ip
  pub alone_mounted : filter (mounts modules_volume_name) pod'.containers ≡ sidecar env ∷ []
  pub modules_once : count_volumes modules_volume_name pod'.volumes ≡ 1

filter-snoc :
    {A : Type 0} (p : A → Bool) (xs : List A) (y : A)
    → any p xs ≡ false
    → p y ≡ true
    → filter p (xs ++ y ∷ []) ≡ y ∷ []
filter-snoc p [] y h k = ground (arith, k)
filter-snoc p (x ∷ xs) y h k = ground (arith, filter-snoc p xs y, h, k)

module _ (c : Client) (env : Environment) (marshals : Pod → Bool) where
  admit-patched :
      (sa : ServiceAccount) (pod pod' : Pod)
      → admit documented_lo c env marshals sa pod ≡ patched pod'
      → (pod' ≡ inject env sa pod)
        × (any (mounts modules_volume_name) pod.containers ≡ false)
        × (any (λ v. v.name == modules_volume_name) pod.volumes ≡ false)
  unfolding admit mounts_modules has_modules_volume
  admit-patched sa pod pod' h = (ground arith, ground arith, ground arith)

  handle-eq-patched :
      (namespace : String) (pod pod' : Pod)
      → handle documented_lo c env marshals (record { namespace = namespace; object = some pod })
        ≡ patched pod'
      → (has_overlay_label pod ≡ true)
        × ((sa : ServiceAccount) × (c.get_service_account [] namespace overlay_service_account
              ≡ ok sa)
            × (admit documented_lo c env marshals sa pod ≡ patched pod'))
  unfolding handle
  handle-eq-patched namespace pod pod' h = elim (Bool-cases (has_overlay_label pod)) [
    | inr unlabelled ↦ absurd (ground (arith, unlabelled))
    | inl labelled ↦
        elim (Result-cases (c.get_service_account [] namespace overlay_service_account)) [
          | inr (e, lost) ↦ absurd (ground (arith, lost, labelled))
          | inl (sa, found) ↦ (labelled, (sa, found, ground (arith, found, labelled)))
        ]
  ]

  inject-IsInjected :
      (namespace : String) (sa : ServiceAccount) (pod : Pod)
      → c.get_service_account [] namespace overlay_service_account ≡ ok sa
      → any (mounts modules_volume_name) pod.containers ≡ false
      → any (λ v. v.name == modules_volume_name) pod.volumes ≡ false
      → IsInjected c env namespace pod (inject env sa pod)
  unfolding inject string_dec
  inject-IsInjected namespace sa pod found unmounted fresh = record {
    sa = sa;
    found = found;
    volumes_eq = refl;
    containers_eq = refl;
    finalizers_eq = refl;
    init_containers_eq = refl;
    name_eq = refl;
    namespace_eq = refl;
    labels_eq = refl;
    annotations_eq = refl;
    deletion_timestamp_eq = refl;
    pod_ip_eq = refl;
    alone_mounted =
        filter-snoc (mounts modules_volume_name) pod.containers (sidecar env) unmounted refl;
    modules_once = omega (
      arith,
      count_volumes-append modules_volume_name pod.volumes (sidecar_volumes (token_secret_name sa)),
      count_volumes_absent modules_volume_name pod.volumes fresh,
    );
  }

  inject-mounts :
      (sa : ServiceAccount) (pod : Pod)
      → mounts_modules documented_lo c env marshals (inject env sa pod) ≡ true
  unfolding mounts_modules inject string_dec
  inject-mounts sa pod = rw any-append (ground arith)

  admit-injected :
      (sa sa' : ServiceAccount) (pod : Pod)
      → admit documented_lo c env marshals sa' (inject env sa pod)
        ≡ denied (reserved_volume_name modules_volume_name)
  unfolding admit
  admit-injected sa sa' pod = rw (inject-mounts sa pod, admit)

  handle-documented :
      (namespace : String) (pod pod' : Pod)
      → handle documented_lo c env marshals (record { namespace = namespace; object = some pod })
        ≡ patched pod'
      → IsInjected c env namespace pod pod'
        × (handle documented_lo c env marshals
              (record { namespace = namespace; object = some pod' })
            ≡ denied (reserved_volume_name modules_volume_name))
  unfolding handle inject
  handle-documented namespace pod pod' h =
      let (labelled, (sa, found, admitted)) = handle-eq-patched namespace pod pod' h in
      let (same, unmounted, fresh) = admit-patched sa pod pod' admitted in
      (
        subst (IsInjected c env namespace pod) (sym same)
            (inject-IsInjected namespace sa pod found unmounted fresh),
        subst
            (λ p.
              handle documented_lo c env marshals
                (record { namespace = namespace; object = some p })
              ≡ denied (reserved_volume_name modules_volume_name))
            (sym same) (rw (labelled, found, handle) (admit-injected sa sa pod)),
      )

  module _ {lo : Lo} (laws : IsLo lo) where
    handle_lem :
        (namespace : String) (pod pod' : Pod)
        → handle lo c env marshals (record { namespace = namespace; object = some pod })
          ≡ patched pod'
        → IsInjected c env namespace pod pod'
          × (handle lo c env marshals (record { namespace = namespace; object = some pod' })
              ≡ denied (reserved_volume_name modules_volume_name))
    handle_lem namespace pod pod' =
        transport_lo laws
          (λ lo.
            handle lo c env marshals (record { namespace = namespace; object = some pod })
              ≡ patched pod'
            → IsInjected c env namespace pod pod'
              × (handle lo c env marshals (record { namespace = namespace; object = some pod' })
                  ≡ denied (reserved_volume_name modules_volume_name)))
          (handle-documented namespace pod pod')

    -- A pod that the webhook patches keeps its containers, volumes and finalizers in front. Behind
    -- them stand the sidecar, the volumes of the sidecar, with the secret of the service account that
    -- the API server returns for the namespace, and the finalizer of the operator. Its init
    -- containers, name, namespace, labels, annotations, deletion timestamp and address are as they
    -- were. Of its containers, init containers aside, the sidecar alone mounts the volume of the
    -- modules, which the pod has once.
    pub handle-IsInjected :
        (namespace : String) (pod pod' : Pod)
        → handle lo c env marshals (record { namespace = namespace; object = some pod })
          ≡ patched pod'
        → IsInjected c env namespace pod pod'
    handle-IsInjected namespace pod pod' h = (handle_lem namespace pod pod' h).0

    -- No pod gets the sidecar twice: a pod that the webhook has patched is denied in the same
    -- namespace.
    pub handle-handle :
        (namespace : String) (pod pod' : Pod)
        → handle lo c env marshals (record { namespace = namespace; object = some pod })
          ≡ patched pod'
        → handle lo c env marshals (record { namespace = namespace; object = some pod' })
          ≡ denied (reserved_volume_name modules_volume_name)
    handle-handle namespace pod pod' h = (handle_lem namespace pod pod' h).1

    -- The name of the sidecar's second volume is not reserved: if a pod that the webhook patches has
    -- a volume of that name, the patched pod has two.
    pub handle-clash :
        (namespace : String) (pod pod' : Pod)
        → count_volumes sidecar_api_access pod.volumes ≡ 1
        → handle lo c env marshals (record { namespace = namespace; object = some pod })
          ≡ patched pod'
        → count_volumes sidecar_api_access pod'.volumes ≡ 2
    unfolding string_dec
    handle-clash namespace pod pod' one h =
        let made = handle-IsInjected namespace pod pod' h in
        rw made.volumes_eq (
          omega (
            arith,
            one,
            count_volumes-append sidecar_api_access pod.volumes
                (sidecar_volumes (token_secret_name made.sa)),
          ))
