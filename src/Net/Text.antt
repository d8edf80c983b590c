-- ===== src/Net/Text.antt =====
-- The text forms of addresses and networks of Go's package net, as a parameter.
use kube_overlay_operator.Base.{String, ◌≡◌, Option, some}
use kube_overlay_operator.Base.Lists.{length}
use kube_overlay_operator.Net.Bytes.{Ip, IpNet, IsBytes}

pub record NetText : Type 0 where
  pub parse_ip : String → Option Ip
  pub parse_cidr : String → Option (Ip × IpNet)
  pub ip_string : Ip → String

-- What package net documents: ParseCIDR gives its address in the form of 16 bytes, and an address
-- of 16 bytes is read back from the text that String prints.
pub record IsNetText (net : NetText) : Type 0 where
  pub length-parse_cidr :
      (cidr : String) (ip : Ip) (n : IpNet) → net.parse_cidr cidr ≡ some (ip, n) → length ip ≡ 16
  pub parse_cidr-IsBytes :
      (cidr : String) (ip : Ip) (n : IpNet) → net.parse_cidr cidr ≡ some (ip, n) → IsBytes ip
  pub parse_ip-ip_string :
      (ip : Ip) → length ip ≡ 16 → IsBytes ip → net.parse_ip (net.ip_string ip) ≡ some ip
