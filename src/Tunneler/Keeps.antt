-- ===== src/Tunneler/Keeps.antt =====
-- Actions that change no link, at the names that a test selects.
use kube_overlay_operator.Base.{
  String, Bool, true, ◌≡◌, refl, ◌∙◌, Option, none, some, List, [], ◌∷◌,
}
use kube_overlay_operator.Base.Outcome.{
  pure, fail, panic, ◌>>=◌, for_each, Post, Triple, continue-Post,
}
use kube_overlay_operator.Base.Result.{Result, ok, err}
use kube_overlay_operator.External.Netlink.{Netlink, IsNetlink, after_call}
use kube_overlay_operator.Tunneler.{
  TunnelReconciler, World, TunnelError, Action, answered, call, or_fail, query,
}

abbrev pub every : String → Bool
every x = true

module _ {nl : Netlink} (laws : IsNetlink nl) (select : String → Bool) where
  -- The reconciler is `self`, and `f` says which of the selected links are there.
  abbrev pub Held : TunnelReconciler → (String → Bool) → World nl → Type 0
  Held self f w =
      (w.self ≡ self) × ((x : String) → select x ≡ true → laws.has_link w.kernel x ≡ f x)

  answered-Held :
      (self : TunnelReconciler) (f : String → Bool) (r : Option nl.Error × nl.Kernel)
      → ((x : String) → select x ≡ true → laws.has_link (after_call r) x ≡ f x)
      → Post (λ _. Held self f) (Held self f) (answered nl r self)
  answered-Held self f (none, k) h = (refl, h)
  answered-Held self f (some e, k) h = (refl, h)

  or_fail-Held :
      {A : Type 0} (self : TunnelReconciler) (f : String → Bool) (r : Result nl.Error A)
      (w : World nl)
      → Held self f w
      → Post (λ _. Held self f) (Held self f) (or_fail nl r w)
  or_fail-Held self f (ok a) w h = h
  or_fail-Held self f (err e) w h = h

  module _ (self : TunnelReconciler) (f : String → Bool) where
    -- With or without an error or a panic, the selected links are the same after the action.
    pub record Keeps {A : Type 0} (m : Action nl A) : Type 0 where
      pub run : Triple (Held self f) m (λ _. Held self f) (Held self f)

    pub call-Keeps :
        (c : nl.Kernel → Option nl.Error × nl.Kernel)
        → ((k : nl.Kernel) (x : String)
            → select x ≡ true
            → laws.has_link (after_call (c k)) x ≡ laws.has_link k x)
        → Keeps (call nl c)
    call-Keeps c same = record {
      run = λ w h. rw h.0 (answered-Held self f (c w.kernel) (λ x s. same w.kernel x s ∙ h.1 x s));
    }

    pub query-Keeps : {A : Type 0} (c : nl.Kernel → Result nl.Error A) → Keeps (query nl c)
    query-Keeps c = record { run = λ w h. or_fail-Held self f (c w.kernel) w h }

    pub pure-Keeps : {A : Type 0} {a : A} → Keeps (pure a)
    pure-Keeps = record { run = λ w h. h }

    pub fail-Keeps : {A : Type 0} {e : TunnelError nl} → Keeps {A = A} (fail e)
    fail-Keeps = record { run = λ w h. h }

    pub panic-Keeps : {A : Type 0} → Keeps {A = A} panic
    panic-Keeps = record { run = λ w h. h }

    pub bind-Keeps :
        {A B : Type 0} {first : Action nl A} {next : A → Action nl B}
        → Keeps first
        → ((a : A) → Keeps (next a))
        → Keeps (first >>= next)
    bind-Keeps {first = first} {next} h rest = record {
      run = λ w p.
          continue-Post (λ _. Held self f) (λ _. Held self f) (Held self f) (first w) next
            (h.run w p) (λ a. (rest a).run);
    }

    pub for_each-Keeps :
        {A : Type 0} {body : A → Action nl (Unit {0})}
        → ((x : A) → Keeps (body x))
        → (xs : List A) → Keeps (for_each xs body)
    for_each-Keeps h [] = pure-Keeps
    for_each-Keeps h (x ∷ xs) = bind-Keeps (h x) (λ _. for_each-Keeps h xs)
