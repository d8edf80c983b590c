-- ===== src/External/Finalizers.antt =====
-- sigs.k8s.io/controller-runtime/pkg/controller/controllerutil, on an object's list of finalizers.
use kube_overlay_operator.Base.{
  String, ◌≡◌, refl, sym, subst, Bool, true, false, not, List, [], ◌∷◌, ◌++◌, ◌==◌, if◌then◌else◌,
}
use kube_overlay_operator.Base.Lists.{filter, contains}

-- AddFinalizer and RemoveFinalizer give the new list, and whether they changed it.
pub record Finalizers : Type 0 where
  pub contains_finalizer : List String → String → Bool
  pub add_finalizer : List String → String → List String × Bool
  pub remove_finalizer : List String → String → List String × Bool

abbrev pub documented_finalizers : Finalizers
documented_finalizers = record {
  contains_finalizer = contains;
  add_finalizer = λ fs f. if contains fs f then (fs, false) else (fs ++ f ∷ [], true);
  remove_finalizer = λ fs f. (filter (λ g. not (g == f)) fs, contains fs f);
}

-- Each function does what its documentation says.
pub record IsFinalizers (fz : Finalizers) : Type 0 where
  pub contains_finalizer_lem :
      (fs : List String) (f : String) → fz.contains_finalizer fs f ≡ contains fs f
  pub add_finalizer_lem :
      (fs : List String) (f : String)
      → fz.add_finalizer fs f ≡ (if contains fs f then (fs, false) else (fs ++ f ∷ [], true))
  pub remove_finalizer_lem :
      (fs : List String) (f : String)
      → fz.remove_finalizer fs f ≡ (filter (λ g. not (g == f)) fs, contains fs f)

IsFinalizers-documented : {fz : Finalizers} → IsFinalizers fz → documented_finalizers ≡ fz
IsFinalizers-documented {fz} laws = sym λ i. record {
  contains_finalizer = λ fs f. laws.contains_finalizer_lem fs f i;
  add_finalizer = λ fs f. laws.add_finalizer_lem fs f i;
  remove_finalizer = λ fs f. laws.remove_finalizer_lem fs f i;
}

-- What is proved of the documented functions holds of each that keep to their documentation.
pub transport_finalizers {ℓ} :
    {fz : Finalizers} (laws : IsFinalizers fz) (P : Finalizers → Type ℓ)
    → P documented_finalizers
    → P fz
transport_finalizers laws P h = subst P (IsFinalizers-documented laws) h

abbrev pub documented_finalizers-IsFinalizers : IsFinalizers documented_finalizers
documented_finalizers-IsFinalizers = record {
  contains_finalizer_lem = λ fs f. refl;
  add_finalizer_lem = λ fs f. refl;
  remove_finalizer_lem = λ fs f. refl;
}
