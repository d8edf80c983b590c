-- ===== src/Net/Masks.antt =====
-- Equality of addresses, and the sizes of masks, of package net. A nil address is the empty one.
use kube_overlay_operator.Base.{
  ℕ, ◌+◌, ◌*◌, Bool, true, false, ◌&&◌, ◌||◌, Option, none, some, List, [], ◌∷◌, ◌++◌, nat_eq,
  if◌then◌else◌,
}
use kube_overlay_operator.Base.Lists.{length}
use kube_overlay_operator.Net.Bytes.{Ip}

abbrev pub nil_ip : Ip
nil_ip = []

-- An address where the text parses, and nil where it does not.
abbrev pub ip_or_nil : Option Ip → Ip
ip_or_nil none = nil_ip
ip_or_nil (some ip) = ip

abbrev pub bytes_eq : List ℕ → List ℕ → Bool
bytes_eq [] [] = true
bytes_eq (a ∷ as') (b ∷ bs) = nat_eq a b && bytes_eq as' bs
bytes_eq _ _ = false

-- The first twelve bytes of an IPv4 address in the form of 16 bytes.
abbrev pub v4_in_v6_prefix : List ℕ
v4_in_v6_prefix = 0 ∷ 0 ∷ 0 ∷ 0 ∷ 0 ∷ 0 ∷ 0 ∷ 0 ∷ 0 ∷ 0 ∷ 255 ∷ 255 ∷ []

-- ip.Equal(x)
unfoldable pub ip_equal : Ip → Ip → Bool
ip_equal ip x =
    bytes_eq ip x
    || (nat_eq (length ip) 4 && bytes_eq (v4_in_v6_prefix ++ ip) x)
    || (nat_eq (length x) 4 && bytes_eq ip (v4_in_v6_prefix ++ x))

-- The leading ones of a byte other than 255 in which no one stands behind a zero.
abbrev pub byte_ones : ℕ → Option ℕ
byte_ones b =
    if nat_eq b 0
    then some 0
    else if nat_eq b 128
    then some 1
    else if nat_eq b 192
    then some 2
    else if nat_eq b 224
    then some 3
    else if nat_eq b 240
    then some 4
    else if nat_eq b 248
    then some 5
    else if nat_eq b 252
    then some 6
    else if nat_eq b 254
    then some 7
    else none

abbrev pub all_zero : List ℕ → Bool
all_zero [] = true
all_zero (b ∷ bs) = nat_eq b 0 && all_zero bs

-- The ones of a mask in front of its zeros; none if it is no such mask.
abbrev pub leading_ones : ℕ → List ℕ → Option ℕ
leading_ones n [] = some n
leading_ones n (b ∷ bs) =
    let more = leading_ones (n + 8) bs in
    if nat_eq b 255 then more else elim (byte_ones b) [
      | none ↦ none
      | some ones ↦ if all_zero bs then some (n + ones) else none
    ]

-- m.Size(): the ones and the bits, and zeros for other masks.
unfoldable pub mask_size : List ℕ → ℕ × ℕ
mask_size m = elim (leading_ones 0 m) [ none ↦ (0, 0) | some ones ↦ (ones, length m * 8) ]

-- net.CIDRMask(32, 32)
abbrev pub host_mask : List ℕ
host_mask = 255 ∷ 255 ∷ 255 ∷ 255 ∷ []
