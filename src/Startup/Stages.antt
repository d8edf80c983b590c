-- ===== src/Startup/Stages.antt =====
-- Programs that make calls in order, and stop at the first one that fails.
use mathlib.Core.List.{append_assoc, append-nil}
use kube_overlay_operator.Base.{
  ℕ, String, Bool, true, false, not, ◌||◌, ◌≡◌, refl, sym, ap, subst, ◌∙◌, some, List, [], ◌∷◌,
  ◌++◌, arith, Bool-cases, inl, inr,
}
use kube_overlay_operator.Base.Outcome.{Outcome, returned, failed, panicked, continue, ◌>>=◌, ◌>>◌}
use kube_overlay_operator.External.Runtime.{Runtime, Host, Call, register, serve_dns}
use kube_overlay_operator.Startup.{Program, call, note, require_env}

-- The calls whose failure ends the program.
abbrev pub is_checked : Call → Bool
is_checked (register path handler) = false
is_checked (serve_dns reconciler) = false
is_checked _ = true

module _ {K : Type 0} (rt : Runtime K) where
  -- After the calls of a log, the call does not end the program.
  abbrev pub goes_on : List Call → Call → Bool
  goes_on log c = rt.succeeds log c || not (is_checked c)

  abbrev pub AllGoOn : List Call → List Call → Type 0
  AllGoOn log [] = Unit
  AllGoOn log (c ∷ cs) = (goes_on log c ≡ true) × AllGoOn (log ++ c ∷ []) cs

  -- What calls make of the kernel.
  abbrev pub effects : List Call → List Call → K → K
  effects log [] k = k
  effects log (c ∷ cs) k = effects (log ++ c ∷ []) cs (rt.effect log c k)

  -- The calls of a program were made from a host on, all before the last one went on, and the last
  -- one ended the program.
  pub record IsStopped (plan : List Call) (before after : Host K) : Type 0 where
    pub passed : List Call
    pub last : Call
    pub rest : List Call
    pub planned : plan ≡ passed ++ last ∷ rest
    pub made : after.calls ≡ before.calls ++ (passed ++ last ∷ [])
    pub left : after.kernel ≡ effects before.calls (passed ++ last ∷ []) before.kernel
    pub went_on : AllGoOn before.calls passed
    pub stopped : goes_on (before.calls ++ passed) last ≡ false

  -- All calls were made, and went on.
  pub record IsComplete (plan : List Call) (before after : Host K) : Type 0 where
    pub made : after.calls ≡ before.calls ++ plan
    pub left : after.kernel ≡ effects before.calls plan before.kernel
    pub went_on : AllGoOn before.calls plan

  -- A program makes the planned calls in order and returns, or it exits with code 1 at the first of
  -- them that fails.
  abbrev pub IsStaged : List Call → Host K → Outcome ℕ (Unit {0}) × Host K → Type 0
  IsStaged plan before (returned a, after) = IsComplete plan before after
  IsStaged plan before (failed code, after) = (code ≡ 1) × IsStopped plan before after
  IsStaged plan before (panicked, after) = ⊥

  pub record Runs (m : Program rt (Unit {0})) (plan : List Call) : Type 0 where
    pub staged : (w : Host K) → IsStaged plan w (m w)

  call-IsStaged : (c : Call) (w : Host K) → is_checked c ≡ true → IsStaged (c ∷ []) w (call rt c w)
  call-IsStaged c w checked = elim (Bool-cases (rt.succeeds w.calls c)) [
    | inl good ↦
        rw (good, call) (record { made = refl; left = refl; went_on = (ground (arith, good), tt) })
    | inr bad ↦
        rw (bad, call)
          (
            refl,
            record {
              passed = [];
              last = c;
              rest = [];
              planned = refl;
              made = refl;
              left = refl;
              went_on = tt;
              stopped = rw append-nil (ground (arith, bad, checked));
            },
          )
  ]

  pub call-Runs : (c : Call) → is_checked c ≡ true → Runs (call rt c) (c ∷ [])
  call-Runs c checked = record { staged = λ w. call-IsStaged c w checked }

  pub note-Runs : (c : Call) → is_checked c ≡ false → Runs (note rt c) (c ∷ [])
  note-Runs c unchecked = record {
    staged = λ w. record { made = refl; left = refl; went_on = (ground (arith, unchecked), tt) };
  }

  AllGoOn-append :
      (log xs ys : List Call) → AllGoOn log xs → AllGoOn (log ++ xs) ys → AllGoOn log (xs ++ ys)
  AllGoOn-append log [] ys h k = rw append-nil at k
  AllGoOn-append log (x ∷ xs) ys h k =
      (h.0, AllGoOn-append (log ++ x ∷ []) xs ys h.1 (rw append_assoc k))

  effects-append :
      (log xs ys : List Call) (k : K)
      → effects log (xs ++ ys) k ≡ effects (log ++ xs) ys (effects log xs k)
  effects-append log [] ys k = rw append-nil refl
  effects-append log (x ∷ xs) ys k =
      effects-append (log ++ x ∷ []) xs ys (rt.effect log x k)
      ∙ ap (λ l. effects l ys (effects (log ++ x ∷ []) xs (rt.effect log x k)))
          (append_assoc log (x ∷ []) xs)

  module _ (p q : List Call) (w v : Host K) (h : IsComplete p w v) where
    calls-append : (xs : List Call) → v.calls ++ xs ≡ w.calls ++ (p ++ xs)
    calls-append xs = ap (λ cs. cs ++ xs) h.made ∙ append_assoc w.calls p xs

    kernel-append :
        (xs : List Call) → effects v.calls xs v.kernel ≡ effects w.calls (p ++ xs) w.kernel
    kernel-append xs =
        ap (λ cs. effects cs xs v.kernel) h.made
        ∙ ap (effects (w.calls ++ p) xs) h.left
        ∙ sym (effects-append w.calls p xs w.kernel)

    AllGoOn-after : (xs : List Call) → AllGoOn v.calls xs → AllGoOn w.calls (p ++ xs)
    AllGoOn-after xs k =
        AllGoOn-append w.calls p xs h.went_on (subst (λ cs. AllGoOn cs xs) h.made k)

    -- What follows a part that went on.
    after-IsStaged : (r : Outcome ℕ (Unit {0}) × Host K) → IsStaged q v r → IsStaged (p ++ q) w r
    after-IsStaged (returned a, u) g = record {
      made = g.made ∙ calls-append q;
      left = g.left ∙ kernel-append q;
      went_on = AllGoOn-after q g.went_on;
    }
    after-IsStaged (failed code, u) (e, g) = (
      e,
      record {
        passed = p ++ g.passed;
        last = g.last;
        rest = g.rest;
        planned = ap (λ l. p ++ l) g.planned ∙ sym (append_assoc p g.passed (g.last ∷ g.rest));
        made =
            g.made
            ∙ calls-append (g.passed ++ g.last ∷ [])
            ∙ ap (λ l. w.calls ++ l) (sym (append_assoc p g.passed (g.last ∷ [])));
        left =
            g.left
            ∙ kernel-append (g.passed ++ g.last ∷ [])
            ∙ ap (λ l. effects w.calls l w.kernel) (sym (append_assoc p g.passed (g.last ∷ [])));
        went_on = AllGoOn-after g.passed g.went_on;
        stopped = ap (λ l. goes_on l g.last) (sym (calls-append g.passed)) ∙ g.stopped;
      },
    )
    after-IsStaged (panicked, u) g = absurd g

  bind-IsStaged :
      (p q : List Call) (w : Host K) (r : Outcome ℕ (Unit {0}) × Host K) (n : Program rt (Unit {0}))
      → IsStaged p w r
      → Runs n q
      → IsStaged (p ++ q) w (continue r (λ _. n))
  unfolding continue
  bind-IsStaged p q w (returned a, v) n h rest = after-IsStaged p q w v h (n v) (rest.staged v)
  bind-IsStaged p q w (failed code, v) n (e, h) rest = (
    e,
    record {
      passed = h.passed;
      last = h.last;
      rest = h.rest ++ q;
      planned = ap (λ l. l ++ q) h.planned ∙ append_assoc h.passed (h.last ∷ h.rest) q;
      made = h.made;
      left = h.left;
      went_on = h.went_on;
      stopped = h.stopped;
    },
  )
  bind-IsStaged p q w (panicked, v) n h rest = absurd h

  pub then-Runs :
      {p q : List Call} {m n : Program rt (Unit {0})} → Runs m p → Runs n q → Runs (m >> n) (p ++ q)
  then-Runs {p} {q} {m} {n} h k = record {
    staged = λ w. bind-IsStaged p q w (m w) n (h.staged w) k;
  }

  require_env-set :
      (name v : String) (w : Host K)
      → rt.lookup_env name ≡ some v
      → require_env rt name w ≡ (returned v, w)
  require_env-set name v w set = rw (set, require_env) refl

  -- A variable that is set.
  pub require_env-Runs :
      (name : String) {v : String} (next : String → Program rt (Unit {0})) {plan : List Call}
      → rt.lookup_env name ≡ some v
      → Runs (next v) plan
      → Runs (require_env rt name >>= next) plan
  unfolding continue
  require_env-Runs name {v} next {plan} set h = record {
    staged = λ w.
        subst (λ r. IsStaged plan w (continue r next)) (sym (require_env-set name v w set))
          (h.staged w);
  }
