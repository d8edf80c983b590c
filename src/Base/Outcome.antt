-- ===== src/Base/Outcome.antt =====
-- Code that changes a world and may return an error or panic. What was done before stays done.
use mathlib.Core.List.{List, [], ◌∷◌}

pub data Outcome (E A : Type 0) : Type 0 where
  returned : A → Outcome E A
  failed : E → Outcome E A
  panicked : Outcome E A

abbrev pub Act : Type 0 → Type 0 → Type 0 → Type 0
Act W E A = W → Outcome E A × W

module _ {W E : Type 0} where
  abbrev pub pure : {A : Type 0} → A → Act W E A
  pure a w = (returned a, w)

  abbrev pub fail : {A : Type 0} → E → Act W E A
  fail e w = (failed e, w)

  abbrev pub panic : {A : Type 0} → Act W E A
  panic w = (panicked, w)

  -- What follows an outcome.
  unfoldable pub continue : {A B : Type 0} → Outcome E A × W → (A → Act W E B) → Outcome E B × W
  continue (returned a, w) next = next a w
  continue (failed e, w) next = (failed e, w)
  continue (panicked, w) next = (panicked, w)

  infixl 5 ◌>>=◌ ◌>>◌
  abbrev pub ◌>>=◌ : {A B : Type 0} → Act W E A → (A → Act W E B) → Act W E B
  ◌>>=◌ first next w = continue (first w) next

  abbrev pub ◌>>◌ : {B : Type 0} → Act W E (Unit {0}) → Act W E B → Act W E B
  first >> next = first >>= λ _. next

  -- For a loop over a list.
  abbrev pub for_each : {A : Type 0} → List A → (A → Act W E (Unit {0})) → Act W E (Unit {0})
  for_each [] body = pure tt
  for_each (x ∷ xs) body = body x >> for_each xs body

  -- What holds after an outcome: Q of the value and the world, or X of the world if there is no
  -- value.
  abbrev pub Post : {A : Type 0} → (A → W → Type 0) → (W → Type 0) → Outcome E A × W → Type 0
  Post Q X (returned a, w) = Q a w
  Post Q X (failed e, w) = X w
  Post Q X (panicked, w) = X w

  -- From every world with P, the code comes to its postconditions.
  abbrev pub Triple :
      {A : Type 0} → (W → Type 0) → Act W E A → (A → W → Type 0) → (W → Type 0) → Type 0
  Triple P m Q X = (w : W) → P w → Post Q X (m w)

  pub continue-Post :
      {A B : Type 0} (Q : A → W → Type 0) (R : B → W → Type 0) (X : W → Type 0)
      (r : Outcome E A × W) (next : A → Act W E B)
      → Post Q X r
      → ((a : A) → Triple (Q a) (next a) R X)
      → Post R X (continue r next)
  unfolding continue
  continue-Post Q R X (returned a, w) next h rest = rest a w h
  continue-Post Q R X (failed e, w) next h rest = h
  continue-Post Q R X (panicked, w) next h rest = h

  -- The rule for a loop with an invariant over what is left.
  pub for_each-Triple :
      {A : Type 0} (I : List A → W → Type 0) (X : W → Type 0) (body : A → Act W E (Unit {0}))
      → ((x : A) (xs : List A) → Triple (I (x ∷ xs)) (body x) (λ _. I xs) X)
      → (xs : List A) → Triple (I xs) (for_each xs body) (λ _. I []) X
  for_each-Triple I X body keep [] w p = p
  for_each-Triple I X body keep (x ∷ xs) w p =
      continue-Post (λ _. I xs) (λ _. I []) X (body x w) (λ _. for_each xs body) (keep x xs w p)
        (λ _ w' p'. for_each-Triple I X body keep xs w' p')

  pub Post-weaken :
      {A : Type 0} (Q R : A → W → Type 0) (X Y : W → Type 0) (r : Outcome E A × W)
      → ((a : A) (w : W) → Q a w → R a w)
      → ((w : W) → X w → Y w)
      → Post Q X r
      → Post R Y r
  Post-weaken Q R X Y (returned a, w) f g h = f a w h
  Post-weaken Q R X Y (failed e, w) f g h = g w h
  Post-weaken Q R X Y (panicked, w) f g h = g w h
