-- ===== src/Tests/Text.antt =====
-- A concrete text form of addresses: each byte as a row of strokes that a dot ends, and some
-- addresses and networks in the usual notation besides.
use Prim.Native.Char.{char, code}
use kube_overlay_operator.Base.{
  ℕ, zero, suc, ◌+◌, String, ◌≡◌, refl, ap, ◌∙◌, Option, none, some, List, [], ◌∷◌, arith, nat_eq,
  ◌==◌, if◌then◌else◌,
}
use kube_overlay_operator.Base.Lists.{length}
use kube_overlay_operator.Net.Bytes.{Ip, IpNet, IsBytes}
use kube_overlay_operator.Net.Text.{NetText, IsNetText}

-- An IPv4 address in the form of 16 bytes.
abbrev pub mapped : List ℕ → Ip
mapped v4 = 0 ∷ 0 ∷ 0 ∷ 0 ∷ 0 ∷ 0 ∷ 0 ∷ 0 ∷ 0 ∷ 0 ∷ 255 ∷ 255 ∷ v4

abbrev strokes : ℕ → String → String
strokes zero rest = String.◌∷◌ (char 46 tt) rest
strokes (suc n) rest = String.◌∷◌ (char 73 tt) (strokes n rest)

abbrev print : Ip → String
print [] = String.[]
print (b ∷ bs) = strokes b (print bs)

abbrev emit : ℕ → Option (List ℕ) → Option (List ℕ)
emit n none = none
emit n (some bs) = some (n ∷ bs)

abbrev scan : ℕ → String → Option (List ℕ)
scan n String.[] = some []
scan n (String.◌∷◌ c s) =
    let more = scan (suc n) s in
    let next = scan 0 s in
    if nat_eq (code c) 73 then more else if nat_eq (code c) 46 then emit n next else none

abbrev v4_table : String → Option Ip
v4_table s =
    if s == "10.0.0.1"
    then some (mapped (10 ∷ 0 ∷ 0 ∷ 1 ∷ []))
    else if s == "10.0.0.2"
    then some (mapped (10 ∷ 0 ∷ 0 ∷ 2 ∷ []))
    else if s == "192.168.0.7"
    then some (mapped (192 ∷ 168 ∷ 0 ∷ 7 ∷ []))
    else none

abbrev scanned : String → Option (List ℕ) → Option Ip
scanned s (some (b ∷ bs)) = some (b ∷ bs)
scanned s _ = v4_table s

-- 10.0.0.0/30 is the one network in use.
abbrev pub parse_network : String → Option (Ip × IpNet)
parse_network s =
    if s == "10.0.0.0/30"
    then some (
      mapped (10 ∷ 0 ∷ 0 ∷ 0 ∷ []),
      record { ip = 10 ∷ 0 ∷ 0 ∷ 0 ∷ []; mask = 255 ∷ 255 ∷ 255 ∷ 252 ∷ [] },
    )
    else none

abbrev pub text : NetText
text = record {
  parse_ip = λ s. scanned s (scan 0 s);
  parse_cidr = parse_network;
  ip_string = print;
}

scan-strokes : (n m : ℕ) (rest : String) → scan m (strokes n rest) ≡ emit (m + n) (scan 0 rest)
scan-strokes zero m rest = ground arith
scan-strokes (suc n) m rest =
    scan-strokes n (suc m) rest ∙ ap (λ k. emit k (scan 0 rest)) (omega arith)

scan-print : (ip : Ip) → scan 0 (print ip) ≡ some ip
scan-print [] = refl
scan-print (b ∷ bs) =
    let byte : 0 + b ≡ b = omega arith in
    scan-strokes b 0 (print bs)
    ∙ ap (λ k. emit k (scan 0 (print bs))) byte
    ∙ ap (emit b) (scan-print bs)

parse-print : (ip : Ip) → length ip ≡ 16 → scanned (print ip) (scan 0 (print ip)) ≡ some ip
parse-print [] h = ground (arith, h)
parse-print (b ∷ bs) h = ap (scanned (print (b ∷ bs))) (scan-print (b ∷ bs))

length-parse_network :
    (cidr : String) (ip : Ip) (n : IpNet) → parse_network cidr ≡ some (ip, n) → length ip ≡ 16
length-parse_network cidr ip n e = ground (arith, e)

parse_network-IsBytes :
    (cidr : String) (ip : Ip) (n : IpNet) → parse_network cidr ≡ some (ip, n) → IsBytes ip
parse_network-IsBytes cidr ip n e = ground (arith, e)

pub text-IsNetText : IsNetText text
text-IsNetText = record {
  length-parse_cidr = length-parse_network;
  parse_cidr-IsBytes = parse_network-IsBytes;
  parse_ip-ip_string = λ ip l b. parse-print ip l;
}
