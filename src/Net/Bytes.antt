-- ===== src/Net/Bytes.antt =====
-- net.IP and net.IPNet as lists of bytes, and their operations To4 and Contains.
use Prim.Native.Nat.{bit_and}
use kube_overlay_operator.Base.{
  ℕ, ◌<◌, Bool, true, ◌&&◌, Option, none, some, List, [], ◌∷◌, nat_eq, if◌then◌else◌,
}
use kube_overlay_operator.Base.Lists.{All, length, drop}

-- net.IP, from its first byte to its last.
abbrev pub Ip : Type 0
Ip = List ℕ

-- net.IPNet
pub record IpNet : Type 0 where
  pub ip : Ip
  pub mask : List ℕ

abbrev pub IsBytes : List ℕ → Type 0
IsBytes = All (λ b. b < 256)

-- ip.To4(): the four bytes of an IPv4 address, also of one in the IPv6 form ::ffff:a.b.c.d.
unfoldable pub to4 : Ip → Option Ip
to4 (a ∷ b ∷ c ∷ d ∷ []) = some (a ∷ b ∷ c ∷ d ∷ [])
to4 (z0 ∷ z1 ∷ z2 ∷ z3 ∷ z4 ∷ z5 ∷ z6 ∷ z7 ∷ z8 ∷ z9 ∷ f0 ∷ f1 ∷ a ∷ b ∷ c ∷ d ∷ []) =
    if nat_eq z0 0
      && nat_eq z1 0
      && nat_eq z2 0
      && nat_eq z3 0
      && nat_eq z4 0
      && nat_eq z5 0
      && nat_eq z6 0
      && nat_eq z7 0
      && nat_eq z8 0
      && nat_eq z9 0
      && nat_eq f0 255
      && nat_eq f1 255
    then some (a ∷ b ∷ c ∷ d ∷ [])
    else none
to4 _ = none

-- ip.To4() where it is not nil, and ip itself otherwise.
abbrev shorten : Ip → Ip
shorten ip = elim (to4 ip) [ none ↦ ip | some v4 ↦ v4 ]

-- networkNumberAndMask of package net: the number and the mask of a network in one length. Where
-- they do not fit, both are nil.
network_number_and_mask : IpNet → Ip × List ℕ
network_number_and_mask n =
    let ip = shorten n.ip in
    let size = length n.mask in
    if nat_eq (length ip) 4
    then if nat_eq size 4
      then (ip, n.mask)
      else if nat_eq size 16
      then (ip, drop 12 n.mask)
      else ([], [])
    else if nat_eq (length ip) 16 && nat_eq size 16
    then (ip, n.mask)
    else ([], [])

-- The loop of Contains: the bytes agree under the mask.
same_masked : List ℕ → List ℕ → List ℕ → Bool
same_masked (n ∷ ns) (m ∷ ms) (i ∷ is) = nat_eq (bit_and n m) (bit_and i m) && same_masked ns ms is
same_masked _ _ _ = true

-- n.Contains(ip)
unfoldable pub contains_ip : IpNet → Ip → Bool
unfolding to4 network_number_and_mask same_masked
contains_ip n ip =
    let (number, mask) = network_number_and_mask n in
    let short = shorten ip in nat_eq (length short) (length number) && same_masked number mask short
