-- ===== src/Tunneler/Naming.antt =====
-- getNetworkId and getTunnelId.
pub mod Ids
pub mod Isolation
use Prim.Native.Nat.{bit_xor}
use Prim.Native.Char.{Char, char, code, IsScalar}
use Prim.Native.String as String
use mathlib.Core.Logic.{dite}
use kube_overlay_operator.Base.{
  ℕ, ◌+◌, ◌-◌, ◌*◌, ◌/◌, ◌%◌, ◌^◌, ◌<◌, String, ◌<>◌, Option, none, some, List, [], ◌∷◌, ◌++◌, ltb,
  if◌then◌else◌, arith, ◌≡◌,
}
use native.Mathlib.Decide.{dec_lt}
use kube_overlay_operator.Base.Dict.{lookup, insert}
use kube_overlay_operator.Tunneler.{TunnelReconciler}

-- `r.networkIndex.Add(1) - 1`, on an int32: the value before, and the new index.
unfoldable pub next_index : ℕ → ℕ × ℕ
next_index i = let added = (i + 1) % 2 ^ 32 in ((added + 2 ^ 32 - 1) % 2 ^ 32, added)

-- The number that getNetworkId takes for a network, and the reconciler after it.
unfoldable pub number_of : String → TunnelReconciler → ℕ × TunnelReconciler
number_of name r = elim (lookup name r.network_to_name) [
  | some nw_id ↦ (nw_id, r)
  | none ↦
      let (nw_id, index) = next_index r.network_index in
      (
        nw_id,
        record r { network_to_name = insert name nw_id r.network_to_name; network_index = index },
      )
]

-- getNetworkId: the rune 'A' + nwId, by its bit pattern.
unfoldable pub get_network_id : String → TunnelReconciler → ℕ × TunnelReconciler
get_network_id name r = let (nw_id, r') = number_of name r in ((65 + nw_id) % 2 ^ 32, r')

pub IsScalar-low : (n : ℕ) → n < 55296 → IsScalar n
IsScalar-low n h = ground (arith, h)

pub IsScalar-high : (n : ℕ) → 57343 < n → n < 1114112 → IsScalar n
IsScalar-high n h k = ground (arith, h, k)

-- The rune that `%c` prints: U+FFFD for a number that is no rune.
unfoldable pub rune : ℕ → Char
rune n =
    dite (dec_lt n 55296) (λ h. char n (IsScalar-low n h))
      (λ _.
        dite (dec_lt 57343 n)
          (λ h. dite (dec_lt n 1114112) (λ k. char n (IsScalar-high n h k)) (λ _. char 65533 tt))
          (λ _. char 65533 tt))

-- The bytes of a rune in UTF-8.
abbrev pub utf8 : ℕ → List ℕ
utf8 n =
    if ltb n 128
    then n ∷ []
    else if ltb n 2048
    then (192 + n / 64) ∷ (128 + n % 64) ∷ []
    else if ltb n 65536
    then (224 + n / 4096) ∷ (128 + n / 64 % 64) ∷ (128 + n % 64) ∷ []
    else (240 + n / 262144) ∷ (128 + n / 4096 % 64) ∷ (128 + n / 64 % 64) ∷ (128 + n % 64) ∷ []

abbrev pub bytes_of : String → List ℕ
bytes_of String.[] = []
bytes_of (String.◌∷◌ c s) = utf8 (code c) ++ bytes_of s

-- The hash of package fnv: FNV-1 of 64 bits, from a sum so far.
unfoldable pub fnv_from : ℕ → List ℕ → ℕ
fnv_from h [] = h
fnv_from h (b ∷ bs) = fnv_from (bit_xor (h * 1099511628211 % 2 ^ 64) b) bs

unfoldable pub fnv64 : List ℕ → ℕ
unfolding fnv_from
fnv64 bs = fnv_from 14695981039346656037 bs

-- `fmt.Sprintf("o%c_", id)`
unfoldable pub link_prefix : ℕ → String
unfolding rune
link_prefix id = String.◌∷◌ (char 111 tt) (String.◌∷◌ (rune id) (String.◌∷◌ (char 95 tt) String.[]))

-- The name of a pod's link in the network of an id. `encode` is EncodeUint64 of base58.
unfoldable pub link_name : (ℕ → String) → ℕ → String → String
unfolding link_prefix fnv64
link_name encode id pod_name = link_prefix id <> encode (fnv64 (bytes_of pod_name))

-- getTunnelId
unfoldable pub get_tunnel_id :
    (ℕ → String) → String → String → TunnelReconciler → String × TunnelReconciler
unfolding link_name get_network_id
get_tunnel_id encode name pod_name r =
    let (id, r') = get_network_id name r in (link_name encode id pod_name, r')
