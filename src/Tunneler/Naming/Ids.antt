-- ===== src/Tunneler/Naming/Ids.antt =====
-- The numbers that getNetworkId gives to networks.
use kube_overlay_operator.Base.{
  ℕ, ◌+◌, ◌%◌, ◌^◌, ◌≤◌, ◌<◌, String, ◌≡◌, ◌↔◌, refl, sym, ap, ◌∙◌, none, some, List, [], ◌∷◌,
  arith, Option-cases, inl, inr,
}
use kube_overlay_operator.Base.Lists.{length}
use kube_overlay_operator.Base.Dict.{lookup, insert, lookup-insert}
use kube_overlay_operator.Tunneler.{TunnelReconciler}
use kube_overlay_operator.Tunneler.Naming.{next_index, number_of, get_network_id}

-- Every number is below the index, and no two networks have the same.
pub record IsNumbered (r : TunnelReconciler) : Type 0 where
  pub bounded :
      (name : String) (i : ℕ) → lookup name r.network_to_name ≡ some i → i < r.network_index
  pub injective :
      (a b : String) (i : ℕ)
      → lookup a r.network_to_name ≡ some i
      → lookup b r.network_to_name ≡ some i
      → a ≡ b

next_index-lt : (i : ℕ) → i + 1 < 2 ^ 32 → next_index i ≡ (i, i + 1)
unfolding next_index
next_index-lt i h = ground arith

number_of_known :
    (r : TunnelReconciler) (name : String) (i : ℕ)
    → lookup name r.network_to_name ≡ some i
    → number_of name r ≡ (i, r)
unfolding number_of
number_of_known r name i e = rw (e, number_of) refl

number_of_new :
    (r : TunnelReconciler) (name : String)
    → r.network_index + 1 < 2 ^ 32
    → lookup name r.network_to_name ≡ none
    → number_of name r ≡ (
      r.network_index,
      record r {
        network_to_name = insert name r.network_index r.network_to_name;
        network_index = r.network_index + 1;
      },
    )
unfolding number_of
number_of_new r name small e = rw (e, number_of, next_index-lt r.network_index small) refl

insert-IsNumbered :
    (r : TunnelReconciler) (name : String)
    → IsNumbered r
    → IsNumbered (record r {
      network_to_name = insert name r.network_index r.network_to_name;
      network_index = r.network_index + 1;
    })
insert-IsNumbered r name w = record {
  bounded = λ x i e.
      ground (arith, lookup-insert x name r.network_index r.network_to_name, w.bounded x i);
  injective = λ a b i p q. ground (
    arith,
    lookup-insert a name r.network_index r.network_to_name,
    lookup-insert b name r.network_index r.network_to_name,
    w.bounded a i,
    w.bounded b i,
    w.injective a b i,
  );
}

-- What a request for a network's number does to the reconciler.
pub record Gives (name : String) (r : TunnelReconciler) (i : ℕ) (r' : TunnelReconciler)
    : Type 0 where
  pub numbered : IsNumbered r'
  pub grown : r'.network_index ≤ r.network_index + 1
  pub not_fewer : r.network_index ≤ r'.network_index
  pub given : lookup name r'.network_to_name ≡ some i
  pub below : i < r'.network_index
  pub kept :
      (x : String) (j : ℕ)
      → lookup x r.network_to_name ≡ some j
      → lookup x r'.network_to_name ≡ some j

pub number_of-Gives :
    (name : String) (r : TunnelReconciler)
    → IsNumbered r
    → r.network_index + 1 < 2 ^ 32
    → Gives name r (number_of name r).0 (number_of name r).1
number_of-Gives name r w small = elim (Option-cases (lookup name r.network_to_name)) [
  | inr (i, known) ↦ rw (number_of_known r name i known) (record {
    numbered = w;
    grown = omega arith;
    not_fewer = omega arith;
    given = known;
    below = w.bounded name i known;
    kept = λ x j e. e;
  })
  | inl unknown ↦ rw (number_of_new r name small unknown) (record {
    numbered = insert-IsNumbered r name w;
    grown = omega arith;
    not_fewer = omega arith;
    given = ground (arith, lookup-insert name name r.network_index r.network_to_name);
    below = omega arith;
    kept = λ x j e. ground (arith, lookup-insert x name r.network_index r.network_to_name);
  })
]

-- The reconciler after requests for networks, in order.
abbrev pub after_requests : List String → TunnelReconciler → TunnelReconciler
after_requests [] r = r
after_requests (name ∷ names) r = after_requests names (number_of name r).1

pub record IsLater (n : ℕ) (r r' : TunnelReconciler) : Type 0 where
  pub numbered : IsNumbered r'
  pub grown : r'.network_index ≤ r.network_index + n
  pub kept :
      (x : String) (j : ℕ)
      → lookup x r.network_to_name ≡ some j
      → lookup x r'.network_to_name ≡ some j

pub after_requests-IsLater :
    (names : List String) (r : TunnelReconciler)
    → IsNumbered r
    → r.network_index + length names < 2 ^ 32
    → IsLater (length names) r (after_requests names r)
after_requests-IsLater [] r w small = record {
  numbered = w;
  grown = omega arith;
  kept = λ x j e. e;
}
after_requests-IsLater (name ∷ names) r w small =
    let step = number_of-Gives name r w (omega arith) in
    let later =
      after_requests-IsLater names (number_of name r).1 step.numbered (omega (arith, step.grown)) in
    record {
      numbered = later.numbered;
      grown = omega (arith, step.grown, later.grown);
      kept = λ x j e. later.kept x j (step.kept x j e);
    }

-- A reconciler that has seen no network.
abbrev pub fresh : String → TunnelReconciler
fresh pn = record { my_pod_name = pn; network_to_name = []; network_index = 0 }

pub fresh-IsNumbered : (pn : String) → IsNumbered (fresh pn)
fresh-IsNumbered pn = record { bounded = λ name i e. cc; injective = λ a b i p q. cc }

number_of-eq_iff :
    (r : TunnelReconciler) (a b : String) (more : List String)
    → IsNumbered r
    → r.network_index + length more + 2 < 2 ^ 32
    → let r' = after_requests more (number_of a r).1 in
      ((number_of a r).0 ≡ (number_of b r').0) ↔ (a ≡ b)
number_of-eq_iff r a b more w small =
    let asked = number_of-Gives a r w (omega arith) in
    let later =
      after_requests-IsLater more (number_of a r).1 asked.numbered (omega (arith, asked.grown)) in
    let again =
      number_of-Gives b (after_requests more (number_of a r).1) later.numbered
        (omega (arith, asked.grown, later.grown)) in
    let held = again.kept a _ (later.kept a _ asked.given) in
    (
      λ e. again.numbered.injective a b _ held (again.given ∙ ap some (sym e)),
      λ e. cc (held, again.given, e),
    )

-- After any requests of a new reconciler, the rune that getNetworkId gives to a network, and the one
-- that it gives to a network after any further requests, are the same just if the networks are. So
-- a network keeps its rune, and no two share one. It is assumed that there are fewer than 2^32 - 67
-- requests.
pub get_network_id-eq_iff :
    (pn : String) (history : List String) (a b : String) (more : List String)
    → length history + length more + 67 < 2 ^ 32
    → let r = after_requests history (fresh pn) in
      let r' = after_requests more (get_network_id a r).1 in
      ((get_network_id a r).0 ≡ (get_network_id b r').0) ↔ (a ≡ b)
unfolding get_network_id
get_network_id-eq_iff pn history a b more small =
    let r = after_requests history (fresh pn) in
    let past = after_requests-IsLater history (fresh pn) (fresh-IsNumbered pn) (omega arith) in
    let asked = number_of-Gives a r past.numbered (omega (arith, past.grown)) in
    let r' = after_requests more (number_of a r).1 in
    let later =
      after_requests-IsLater more (number_of a r).1 asked.numbered
        (omega (arith, past.grown, asked.grown)) in
    let again =
      number_of-Gives b r' later.numbered (omega (arith, past.grown, asked.grown, later.grown)) in
    let same = number_of-eq_iff r a b more past.numbered (omega (arith, past.grown)) in
    (
      λ e. same.0 (
          omega (
            arith, e, asked.below, again.below, past.grown, asked.grown, later.grown, again.grown,
          )),
      λ e. ap (λ i. (65 + i) % 2 ^ 32) (same.1 e),
    )
