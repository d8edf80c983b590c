-- ===== src/Iputil/Fuel.antt =====
-- How many addresses the loop of FirstFreeHost looks at.
use mathlib.Core.Option.{some-injective}
use kube_overlay_operator.Base.{
  ℕ, zero, suc, ◌+◌, ◌%◌, ◌^◌, ◌<◌, ◌≤◌, String, Bool, true, false, ◌≡◌, ◌≢◌, refl, sym, ap, ◌∙◌,
  List, [], ◌∷◌, arith, ◌==◌, if◌then◌else◌, Bool-cases, inl, inr,
}
use kube_overlay_operator.Base.Lists.{length, contains, Distinct, All}
use kube_overlay_operator.Base.Dict.{Dict}
use kube_overlay_operator.Net.Bytes.{Ip, IpNet, IsBytes, contains_ip}
use kube_overlay_operator.Net.Text.{NetText, IsNetText}
use kube_overlay_operator.Iputil.{failed, out_of_fuel, inc, is_allocated, search_from}
use kube_overlay_operator.Iputil.Value.{value, value-lt, value-inc, length-inc, inc-IsBytes}
use kube_overlay_operator.Iputil.Search.{Taken}

-- The entries of the other keys.
abbrev without : String → Dict Bool → Dict Bool
without k [] = []
without k ((j, v) ∷ m) = if j == k then without k m else (j, v) ∷ without k m

length-without-le : (k : String) (m : Dict Bool) → length (without k m) ≤ length m
length-without-le k [] = omega arith
length-without-le k ((j, v) ∷ m) = ground (arith, length-without-le k m)

length-without-lt :
    (k : String) (m : Dict Bool) → is_allocated m k ≡ true → length (without k m) < length m
length-without-lt k [] h = ground arith
length-without-lt k ((j, v) ∷ m) h = ground (arith, length-without-le k m, length-without-lt k m)

is_allocated-without :
    (k j : String) (m : Dict Bool) → k ≢ j → is_allocated (without k m) j ≡ is_allocated m j
is_allocated-without k j [] h = refl
is_allocated-without k j ((i, v) ∷ m) h = ground (arith, is_allocated-without k j m h)

All-without :
    (k : String) (m : Dict Bool) (ks : List String)
    → contains ks k ≡ false
    → All (λ j. is_allocated m j ≡ true) ks
    → All (λ j. is_allocated (without k m) j ≡ true) ks
All-without k m [] n h = tt
All-without k m (j ∷ ks) n h =
    (ground (arith, is_allocated-without k j m, h.0), All-without k m ks (ground arith) h.1)

-- Distinct keys of a map are no more than its entries.
pigeonhole :
    (ks : List String) (m : Dict Bool)
    → Distinct ks
    → All (λ k. is_allocated m k ≡ true) ks
    → length ks ≤ length m
pigeonhole [] m d h = omega arith
pigeonhole (k ∷ ks) m (n, d) (used, h) =
    omega
      (arith, length-without-lt k m used, pigeonhole ks (without k m) d (All-without k m ks n h))

abbrev Is16 : Ip → Type 0
Is16 ip = (length ip ≡ 16) × IsBytes ip

inc-Is16 : (ip : Ip) → Is16 ip → Is16 (inc ip)
inc-Is16 ip (n, b) = (length-inc ip ∙ n, inc-IsBytes ip b)

module _ (net : NetText) (laws : IsNetText net) where
  ip_string_inj : (a b : Ip) → Is16 a → Is16 b → net.ip_string a ≡ net.ip_string b → a ≡ b
  ip_string_inj a b ha hb e = some-injective a b (
      sym (laws.parse_ip-ip_string a ha.0 ha.1)
      ∙ ap net.parse_ip e
      ∙ laws.parse_ip-ip_string b hb.0 hb.1)

  -- The texts of n addresses from `ip`.
  abbrev texts : ℕ → Ip → List String
  texts zero ip = []
  texts (suc n) ip = net.ip_string ip ∷ texts n (inc ip)

  length-texts : (n : ℕ) (ip : Ip) → length (texts n ip) ≡ n
  length-texts zero ip = refl
  length-texts (suc n) ip = ap suc (length-texts n (inc ip))

  -- An address does not come back before all others were visited.
  texts_fresh :
      (n d : ℕ) (first ip : Ip)
      → Is16 first
      → Is16 ip
      → value ip ≡ (value first + d) % 256 ^ 16
      → 0 < d
      → d + n ≤ 256 ^ 16
      → contains (texts n ip) (net.ip_string first) ≡ false
  texts_fresh zero d first ip hf hi e pos bound = refl
  texts_fresh (suc n) d first ip hf hi e pos bound =
      let next =
        texts_fresh n (d + 1) first (inc ip) hf (inc-Is16 ip hi)
          (rw hi.0 at (value-inc ip hi.1) ∙ omega (arith, e)) (omega arith) (omega arith) in
      let below : value first < 256 ^ 16 = rw hf.0 at (value-lt first hf.1) in
      let apart : value ip ≢ value first = omega arith in
      ground (
        arith,
        next,
        λ (same : net.ip_string ip ≡ net.ip_string first).
            apart (ap value (ip_string_inj ip first hi hf same)),
      )

  texts-Distinct : (n : ℕ) (ip : Ip) → Is16 ip → n ≤ 256 ^ 16 → Distinct (texts n ip)
  texts-Distinct zero ip h bound = tt
  texts-Distinct (suc n) ip h bound = (
    texts_fresh n 1 ip (inc ip) h (inc-Is16 ip h) (rw h.0 at (value-inc ip h.1)) (omega arith)
        (omega arith),
    texts-Distinct n (inc ip) (inc-Is16 ip h) (omega arith),
  )

  module _ (ipnet : IpNet) (allocated : Dict Bool) where
    All-texts :
        (n : ℕ) (ip : Ip)
        → Taken net ipnet allocated n ip
        → All (λ k. is_allocated allocated k ≡ true) (texts n ip)
    All-texts zero ip t = tt
    All-texts (suc n) ip t = (t.1, All-texts n (inc ip) t.2)

    Taken-le :
        (n : ℕ) (ip : Ip)
        → Is16 ip
        → n ≤ 256 ^ 16
        → Taken net ipnet allocated n ip
        → n ≤ length allocated
    Taken-le n ip h bound t =
        rw (length-texts n ip) at
          (pigeonhole (texts n ip) allocated (texts-Distinct n ip h bound) (All-texts n ip t))

    Taken-of_cut :
        (fuel : ℕ) (ip : Ip)
        → search_from net fuel ipnet allocated ip ≡ failed out_of_fuel
        → Taken net ipnet allocated fuel ip
    unfolding search_from
    Taken-of_cut zero ip e = tt
    Taken-of_cut (suc fuel) ip e = elim (Bool-cases (contains_ip ipnet ip)) [
      | inr outside ↦ absurd (ground (arith, outside))
      | inl inside ↦ elim (Bool-cases (is_allocated allocated (net.ip_string ip))) [
        | inl used ↦ (inside, used, Taken-of_cut fuel (inc ip) (ground (arith, inside, used)))
        | inr free ↦ absurd (ground (arith, inside, free))
      ]
    ]

    pub search_from-ne-cut :
        (fuel : ℕ) (ip : Ip)
        → length ip ≡ 16
        → IsBytes ip
        → length allocated < fuel
        → fuel ≤ 256 ^ 16
        → search_from net fuel ipnet allocated ip ≢ failed out_of_fuel
    search_from-ne-cut fuel ip n b enough bound e =
        absurd (omega (arith, Taken-le fuel ip (n, b) bound (Taken-of_cut fuel ip e)))
