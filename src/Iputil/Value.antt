-- ===== src/Iputil/Value.antt =====
-- `inc` on the number that the bytes of an address write.
use mathlib.Core.List.{reverse, reverse-cons, reverse-reverse}
use native.Mathlib.Nat.{pow-succ', mod-eq_of_lt, mod_self}
use kube_overlay_operator.Base.{
  ℕ, ◌+◌, ◌*◌, ◌%◌, ◌^◌, ◌<◌, ◌≡◌, ◌⊎◌, inl, inr, refl, sym, ap, ◌∙◌, List, [], ◌∷◌, arith,
}
use kube_overlay_operator.Base.Lists.{length, length-append, All-append}
use kube_overlay_operator.Net.Bytes.{Ip, IsBytes}
use kube_overlay_operator.Iputil.{inc_loop, inc}

-- The number that bytes write, from the last byte to the first.
reversed_value : List ℕ → ℕ
reversed_value [] = 0
reversed_value (b ∷ bs) = b + 256 * reversed_value bs

-- An address as one number.
unfoldable pub value : Ip → ℕ
unfolding reversed_value
value ip = reversed_value (reverse ip)

reversed_value-lt : (bs : List ℕ) → IsBytes bs → reversed_value bs < 256 ^ length bs
unfolding reversed_value
reversed_value-lt [] h = omega arith
reversed_value-lt (b ∷ bs) h =
    omega (arith, h.0, reversed_value-lt bs h.1, pow-succ' 256 (length bs))

reversed_value-inc_loop :
    (bs : List ℕ)
    → IsBytes bs
    → (reversed_value (inc_loop bs) ≡ reversed_value bs + 1)
      ⊎ ((reversed_value bs + 1 ≡ 256 ^ length bs) × (reversed_value (inc_loop bs) ≡ 0))
unfolding reversed_value inc_loop
reversed_value-inc_loop [] h = inr (omega arith, refl)
reversed_value-inc_loop (b ∷ bs) h =
    ground (arith, reversed_value-inc_loop bs h.1, pow-succ' 256 (length bs))

length-inc_loop : (bs : List ℕ) → length (inc_loop bs) ≡ length bs
unfolding inc_loop
length-inc_loop [] = refl
length-inc_loop (b ∷ bs) = ground (arith, length-inc_loop bs)

inc_loop-IsBytes : (bs : List ℕ) → IsBytes bs → IsBytes (inc_loop bs)
unfolding inc_loop
inc_loop-IsBytes [] h = tt
inc_loop-IsBytes (b ∷ bs) h = ground (arith, inc_loop-IsBytes bs h.1)

reversed_value_inj :
    (cs bs : List ℕ)
    → IsBytes cs
    → IsBytes bs
    → length cs ≡ length bs
    → reversed_value cs ≡ reversed_value bs
    → cs ≡ bs
unfolding reversed_value
reversed_value_inj [] [] ha hb n e = refl
reversed_value_inj [] (b ∷ bs) ha hb n e = absurd (omega arith)
reversed_value_inj (a ∷ cs) [] ha hb n e = absurd (omega arith)
reversed_value_inj (a ∷ cs) (b ∷ bs) ha hb n e =
    let same : a ≡ b = omega (arith, ha.0, hb.0) in
    let rest : cs ≡ bs =
      reversed_value_inj cs bs ha.1 hb.1 (omega arith) (omega (arith, ha.0, hb.0)) in
    cc

length-reverse : (bs : List ℕ) → length (reverse bs) ≡ length bs
length-reverse [] = refl
length-reverse (b ∷ bs) =
    rw reverse-cons (omega (arith, length-append (reverse bs) (b ∷ []), length-reverse bs))

reverse-IsBytes : (bs : List ℕ) → IsBytes bs → IsBytes (reverse bs)
reverse-IsBytes [] h = tt
reverse-IsBytes (b ∷ bs) h =
    rw reverse-cons
      (All-append (λ (x : ℕ). x < 256) (reverse bs) (b ∷ []) (reverse-IsBytes bs h.1) (h.0, tt))

pub length-inc : (ip : Ip) → length (inc ip) ≡ length ip
unfolding inc
length-inc ip =
    omega (
      arith,
      length-reverse ip,
      length-inc_loop (reverse ip),
      length-reverse (inc_loop (reverse ip)),
    )

pub inc-IsBytes : (ip : Ip) → IsBytes ip → IsBytes (inc ip)
unfolding inc
inc-IsBytes ip h = reverse-IsBytes _ (inc_loop-IsBytes _ (reverse-IsBytes ip h))

pub value-lt : (ip : Ip) → IsBytes ip → value ip < 256 ^ length ip
unfolding value
value-lt ip h = rw (length-reverse ip) at (reversed_value-lt (reverse ip) (reverse-IsBytes ip h))

value-inc_cases :
    (ip : Ip)
    → IsBytes ip
    → (value (inc ip) ≡ value ip + 1) ⊎ ((value ip + 1 ≡ 256 ^ length ip) × (value (inc ip) ≡ 0))
unfolding value inc
value-inc_cases ip h =
    rw (reverse-reverse, ← length-reverse ip)
      (reversed_value-inc_loop (reverse ip) (reverse-IsBytes ip h))

-- The increment of an address of n bytes adds 1 to the number that the bytes write, modulo 256 ^ n.
pub value-inc : (ip : Ip) → IsBytes ip → value (inc ip) ≡ (value ip + 1) % 256 ^ length ip
value-inc ip h = elim (value-inc_cases ip h) [
  | inl e ↦
      let below = rw (length-inc ip) at (value-lt (inc ip) (inc-IsBytes ip h)) in
      rw e (sym (mod-eq_of_lt (omega (arith, e, below))))
  | inr (full, e) ↦ rw (e, full) (sym (mod_self _))
]

pub value_inj : (a b : Ip) → IsBytes a → IsBytes b → length a ≡ length b → value a ≡ value b → a ≡ b
unfolding value
value_inj a b ha hb n e =
    sym (reverse-reverse a)
    ∙ ap reverse (
        reversed_value_inj _ _ (reverse-IsBytes a ha) (reverse-IsBytes b hb)
          (omega (arith, length-reverse a, length-reverse b)) e)
    ∙ reverse-reverse b
