-- ===== src/Tunneler/Naming/Isolation.antt =====
-- The prefixes of networks among the names of links.
use Prim.Native.Char.{Char, char, code, nul}
use Prim.Native.String.append
use text.Mathlib.TextEquality.{starts_with_iff}
use kube_overlay_operator.Base.{
  ℕ, ◌<◌, String, ◌<>◌, true, ◌≡◌, ◌↔◌, sym, ap, ◌∙◌, arith, has_prefix,
}
use kube_overlay_operator.Base.Strings.{has_prefix-append}
use kube_overlay_operator.Tunneler.Naming.{rune, link_prefix, link_name}

pub code-rune : (n : ℕ) → n < 55296 → code (rune n) ≡ n
unfolding rune
code-rune n h = ground (arith, h)

abbrev second : String → Char
second (String.◌∷◌ c (String.◌∷◌ d s)) = d
second _ = nul

pub prefix-append :
    (id : ℕ) (s : String)
    → link_prefix id <> s
      ≡ String.◌∷◌ (char 111 tt) (String.◌∷◌ (rune id) (String.◌∷◌ (char 95 tt) s))
unfolding link_prefix
prefix-append id s = simp append.cons (
    ap (λ t. String.◌∷◌ (char 111 tt) (String.◌∷◌ (rune id) t))
      (append.cons (char 95 tt) String.[] s ∙ ap (String.◌∷◌ (char 95 tt)) (append.nil s)))

rune-of_prefix :
    (id : ℕ) (s : String) (j : ℕ)
    → has_prefix (link_prefix id <> s) (link_prefix j) ≡ true
    → rune id ≡ rune j
unfolding has_prefix
rune-of_prefix id s j h =
    let (u, e) = (starts_with_iff (link_prefix id <> s) (link_prefix j)).0 h in
    ap second (sym (prefix-append id s) ∙ sym e ∙ prefix-append j u)

-- Up to id 55295, the name of a link has the prefix of a network just if it is that network's id in
-- the name.
pub has_prefix-link_name :
    (encode : ℕ → String) (id : ℕ) (pod_name : String) (j : ℕ)
    → id < 55296
    → j < 55296
    → (has_prefix (link_name encode id pod_name) (link_prefix j) ≡ true) ↔ (id ≡ j)
unfolding link_name
has_prefix-link_name encode id pod_name j low low' = (
  (λ h. sym (code-rune id low) ∙ ap code (rune-of_prefix id _ j h) ∙ code-rune j low'),
  λ e. rw (← e) (has_prefix-append (link_prefix id) _),
)

pub has_prefix-own :
    (encode : ℕ → String) (id : ℕ) (pod_name : String)
    → has_prefix (link_name encode id pod_name) (link_prefix id) ≡ true
unfolding link_name
has_prefix-own encode id pod_name = has_prefix-append (link_prefix id) _
