-- ===== src/Tunneler/Calm.antt =====
-- Runs of the tunnel controller that do not panic.
pub mod Links
pub mod Routes
use kube_overlay_operator.Base.{◌≡◌, ◌≢◌, refl, ◌∙◌, Option, none, some, List, [], ◌∷◌}
use kube_overlay_operator.Base.Outcome.{
  Outcome, returned, failed, panicked, pure, fail, continue, ◌>>=◌, for_each,
}
use kube_overlay_operator.Base.Result.{Result, ok, err}
use kube_overlay_operator.External.Netlink.{Netlink}
use kube_overlay_operator.Tunneler.{
  TunnelReconciler, World, TunnelError, Action, answered, call, or_fail, query,
}

module _ {nl : Netlink} where
  -- The outcome is no panic.
  abbrev pub Ends : {A : Type 0} → Outcome (TunnelError nl) A × World nl → Type 0
  Ends (returned a, w) = Unit
  Ends (failed e, w) = Unit
  Ends (panicked, w) = ⊥

  pub ne-panicked :
      {A : Type 0} (r : Outcome (TunnelError nl) A × World nl) → Ends r → r.0 ≢ panicked
  ne-panicked (returned a, w) h = λ e. cc
  ne-panicked (failed x, w) h = λ e. cc
  ne-panicked (panicked, w) h = absurd h

  continue-Ends :
      {A B : Type 0} (r : Outcome (TunnelError nl) A × World nl) (next : A → Action nl B)
      → Ends r
      → ((a : A) (w : World nl) → Ends (next a w))
      → Ends (continue r next)
  unfolding continue
  continue-Ends (returned a, w) next h rest = rest a w
  continue-Ends (failed e, w) next h rest = tt
  continue-Ends (panicked, w) next h rest = absurd h

answered-Ends :
    (nl : Netlink) (r : Option nl.Error × nl.Kernel) (self : TunnelReconciler)
    → Ends (answered nl r self)
answered-Ends nl (none, k) self = tt
answered-Ends nl (some e, k) self = tt

module _ {nl : Netlink} where
  or_fail-Ends : {A : Type 0} (r : Result nl.Error A) (w : World nl) → Ends (or_fail nl r w)
  or_fail-Ends (ok a) w = tt
  or_fail-Ends (err e) w = tt

  -- From no world does the action panic.
  pub record IsCalm {A : Type 0} (m : Action nl A) : Type 0 where
    pub run : (w : World nl) → Ends (m w)

  pub call-IsCalm : (c : nl.Kernel → Option nl.Error × nl.Kernel) → IsCalm (call nl c)
  call-IsCalm c = record { run = λ w. answered-Ends nl (c w.kernel) w.self }

  pub query-IsCalm : {A : Type 0} (c : nl.Kernel → Result nl.Error A) → IsCalm (query nl c)
  query-IsCalm c = record { run = λ w. or_fail-Ends (c w.kernel) w }

  pub pure-IsCalm : {A : Type 0} {a : A} → IsCalm (pure a)
  pure-IsCalm = record { run = λ w. tt }

  pub fail-IsCalm : {A : Type 0} {e : TunnelError nl} → IsCalm {A = A} (fail e)
  fail-IsCalm = record { run = λ w. tt }

  pub bind-IsCalm :
      {A B : Type 0} {first : Action nl A} {next : A → Action nl B}
      → IsCalm first
      → ((a : A) → IsCalm (next a))
      → IsCalm (first >>= next)
  bind-IsCalm {first = first} {next} h rest = record {
    run = λ w. continue-Ends (first w) next (h.run w) (λ a. (rest a).run);
  }

  or_fail-known :
      {A B : Type 0} (r : Result nl.Error A) (w : World nl) (next : A → Action nl B)
      → ((a : A) → r ≡ ok a → IsCalm (next a))
      → Ends (continue (or_fail nl r w) next)
  unfolding continue
  or_fail-known (ok a) w next h = (h a refl).run w
  or_fail-known (err e) w next h = tt

  -- What follows a read is calm after all answers that the kernel may give.
  pub read-IsCalm :
      {A B : Type 0} (c : nl.Kernel → Result nl.Error A) {next : A → Action nl B}
      → ((k : nl.Kernel) (a : A) → c k ≡ ok a → IsCalm (next a))
      → IsCalm (query nl c >>= next)
  read-IsCalm c {next} h = record { run = λ w. or_fail-known (c w.kernel) w next (h w.kernel) }

  pub for_each-IsCalm :
      {A : Type 0} {body : A → Action nl (Unit {0})}
      → ((x : A) → IsCalm (body x))
      → (xs : List A) → IsCalm (for_each xs body)
  for_each-IsCalm h [] = pure-IsCalm
  for_each-IsCalm h (x ∷ xs) = bind-IsCalm (h x) (λ _. for_each-IsCalm h xs)
