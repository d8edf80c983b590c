-- ===== src/External/Netlink.antt =====
-- github.com/vishvananda/netlink: the calls that the code makes to the kernel.
use kube_overlay_operator.Base.{
  ℕ, ◌≤◌, String, ◌≡◌, Bool, true, false, not, ◌&&◌, ◌||◌, Option, none, some, List, ◌==◌, map,
}
use kube_overlay_operator.Base.Lists.{any, contains}
use kube_overlay_operator.Base.Int.{ℤ, pos, int_eq}
use kube_overlay_operator.Base.Result.{Result, ok}
use kube_overlay_operator.Net.Bytes.{Ip, IpNet}

-- netlink.Link, by the attributes in use.
pub record Link : Type 0 where
  pub name : String
  pub index : ℕ

pub record Iptun : Type 0 where
  pub encap_type : ℕ
  pub encap_sport : ℕ
  pub encap_dport : ℕ
  pub encap_flags : ℕ
  pub local_ip : Ip
  pub remote_ip : Ip
  pub ttl : ℕ
  pub name : String

pub record Fou : Type 0 where
  pub family : ℕ
  pub port : ℤ
  pub protocol : ℕ
  pub encap_type : ℕ

-- netlink.Route; `dst` is a pointer and may be nil.
pub record Route : Type 0 where
  pub link_index : ℕ
  pub scope : ℕ
  pub dst : Option IpNet
  pub src : Ip
  pub gw : Ip

-- The constants and the calls. A call that changes the kernel returns an error or none.
pub record Netlink : Type 1 where
  pub Kernel : Type 0
  pub Error : Type 0
  pub family_v4 : ℕ
  pub scope_link : ℕ
  pub fou_encap_direct : ℕ
  pub link_list : Kernel → Result Error (List Link)
  pub link_by_name : String → Kernel → Result Error Link
  pub route_list : Link → Kernel → Result Error (List Route)
  pub fou_list : Kernel → Result Error (List Fou)
  pub link_add : Iptun → Kernel → Option Error × Kernel
  pub link_del : Link → Kernel → Option Error × Kernel
  pub link_set_up : Link → Kernel → Option Error × Kernel
  pub addr_add : Link → IpNet → Kernel → Option Error × Kernel
  pub route_add : Route → Kernel → Option Error × Kernel
  pub route_del : Route → Kernel → Option Error × Kernel
  pub fou_add : Fou → Kernel → Option Error × Kernel
  pub fou_del : Fou → Kernel → Option Error × Kernel

abbrev pub succeeded : {E K : Type 0} → Option E × K → Bool
succeeded (none, k) = true
succeeded (some e, k) = false

abbrev pub after_call : {E K : Type 0} → Option E × K → K
after_call (e, k) = k

-- What the calls do to the links and to the ports that receive: a list shows all of them, a call
-- that succeeds has its effect, and no call has another effect on them.
pub record IsNetlink (nl : Netlink) : Type 0 where
  pub has_link : nl.Kernel → String → Bool
  pub has_fou : nl.Kernel → ℤ → Bool
  pub link_list_lem :
      (k : nl.Kernel) (ls : List Link) (x : String)
      → nl.link_list k ≡ ok ls
      → contains (map (λ l. l.name) ls) x ≡ has_link k x
  pub link_by_name_lem :
      (k : nl.Kernel) (x : String) (l : Link) → nl.link_by_name x k ≡ ok l → l.name ≡ x
  pub link_add_lem :
      (t : Iptun) (k : nl.Kernel) (x : String)
      → has_link (after_call (nl.link_add t k)) x
        ≡ (has_link k x || (succeeded (nl.link_add t k) && t.name == x))
  pub link_del_lem :
      (l : Link) (k : nl.Kernel) (x : String)
      → has_link (after_call (nl.link_del l k)) x
        ≡ (has_link k x && not (succeeded (nl.link_del l k) && l.name == x))
  pub link_set_up_lem :
      (l : Link) (k : nl.Kernel) (x : String)
      → has_link (after_call (nl.link_set_up l k)) x ≡ has_link k x
  pub addr_add_lem :
      (l : Link) (n : IpNet) (k : nl.Kernel) (x : String)
      → has_link (after_call (nl.addr_add l n k)) x ≡ has_link k x
  pub route_add_lem :
      (r : Route) (k : nl.Kernel) (x : String)
      → has_link (after_call (nl.route_add r k)) x ≡ has_link k x
  pub route_del_lem :
      (r : Route) (k : nl.Kernel) (x : String)
      → has_link (after_call (nl.route_del r k)) x ≡ has_link k x
  pub fou_list_lem :
      (k : nl.Kernel) (fs : List Fou) (p : ℕ)
      → nl.fou_list k ≡ ok fs
      → any (λ f. int_eq f.port (pos p)) fs ≡ has_fou k (pos p)
  pub fou_add_lem :
      (f : Fou) (k : nl.Kernel) (x : String)
      → has_link (after_call (nl.fou_add f k)) x ≡ has_link k x
  pub fou_del_lem :
      (f : Fou) (k : nl.Kernel) (x : String)
      → has_link (after_call (nl.fou_del f k)) x ≡ has_link k x
  pub fou_add-port :
      (f : Fou) (k : nl.Kernel) (p : ℕ)
      → p ≤ 65535
      → f.port ≡ pos p
      → succeeded (nl.fou_add f k) ≡ true
      → has_fou (after_call (nl.fou_add f k)) (pos p) ≡ true
  pub fou_del-port :
      (f : Fou) (k : nl.Kernel) (p : ℕ)
      → p ≤ 65535
      → f.port ≡ pos p
      → succeeded (nl.fou_del f k) ≡ true
      → has_fou (after_call (nl.fou_del f k)) (pos p) ≡ false
