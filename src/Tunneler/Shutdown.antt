-- ===== src/Tunneler/Shutdown.antt =====
-- Shutdown of tunneler/network_controller.go.
pub mod Removal
use Prim.Native.Char.{Char, code}
use Prim.Native.String as String
use kube_overlay_operator.Base.{
  ℕ, zero, suc, String, Bool, true, false, ◌&&◌, ◌||◌, List, [], ◌∷◌, leb, nat_eq, if◌then◌else◌,
}
use kube_overlay_operator.Base.Result.{Result, ok, err}
use kube_overlay_operator.External.Netlink.{Netlink, Link, after_call}

abbrev pub between : ℕ → ℕ → ℕ → Bool
between low high c = leb low c && leb c high

-- [A-Za-z]
abbrev pub is_letter : ℕ → Bool
is_letter c = between 65 90 c || between 97 122 c

-- [0-9a-zA-Z]
abbrev pub is_alphanumeric : ℕ → Bool
is_alphanumeric c = between 48 57 c || is_letter c

-- From `low` to `high` letters and digits up to the end.
abbrev pub alphanumerics : ℕ → ℕ → String → Bool
alphanumerics low high String.[] = nat_eq low 0
alphanumerics low zero (String.◌∷◌ c s) = false
alphanumerics zero (suc high) (String.◌∷◌ c s) =
    is_alphanumeric (code c) && alphanumerics zero high s
alphanumerics (suc low) (suc high) (String.◌∷◌ c s) =
    is_alphanumeric (code c) && alphanumerics low high s

-- ^o[A-Za-z]_[0-9a-zA-Z]{8,11}$
unfoldable pub link_name_matches : String → Bool
link_name_matches (String.◌∷◌ o (String.◌∷◌ id (String.◌∷◌ u rest))) =
    nat_eq (code o) 111 && is_letter (code id) && nat_eq (code u) 95 && alphanumerics 8 11 rest
link_name_matches _ = false

module _ (nl : Netlink) where
  -- The loop over the links: an error of a deletion is printed only.
  unfoldable pub delete_links : List Link → nl.Kernel → nl.Kernel
  delete_links [] k = k
  delete_links (link ∷ links) k =
      delete_links links
        (if link_name_matches link.name then after_call (nl.link_del link k) else k)

  -- Shutdown: an error of the list is printed only.
  unfoldable pub shutdown : nl.Kernel → nl.Kernel
  unfolding delete_links
  shutdown k = elim (nl.link_list k) [ err e ↦ k | ok links ↦ delete_links links k ]
