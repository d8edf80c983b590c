-- ===== src/Tests/Iputil.antt =====
-- The search for addresses at concrete networks.
use kube_overlay_operator.Base.{◌+◌, ◌%◌, ◌^◌, ◌<◌, Bool, true, ◌≡◌, refl, none, [], ◌∷◌, arith}
use kube_overlay_operator.Base.Strings.{string_dec}
use kube_overlay_operator.Base.Lists.{length}
use kube_overlay_operator.Base.Dict.{Dict}
use kube_overlay_operator.Net.Bytes.{Ip, IsBytes, contains_ip, to4}
use kube_overlay_operator.Iputil.{
  inc, first_free_host, search_from, host, failed, address_pool_exhausted,
}
use kube_overlay_operator.Iputil.Value.{value, value-inc}
use kube_overlay_operator.Iputil.Host.{Answer, first_free_host-Answer}
use kube_overlay_operator.Tests.Text.{text, text-IsNetText}
use kube_overlay_operator.Tests.Objects.{address}

abbrev last_of_subnet : Ip
last_of_subnet = 10 ∷ 0 ∷ 0 ∷ 255 ∷ []

last_of_subnet-IsBytes : IsBytes last_of_subnet
last_of_subnet-IsBytes = (omega arith, (omega arith, (omega arith, (omega arith, tt))))

value-inc_example :
    value (inc last_of_subnet) ≡ (value last_of_subnet + 1) % 256 ^ length last_of_subnet
value-inc_example = value-inc last_of_subnet last_of_subnet-IsBytes

-- 10.0.0.1 is in use.
abbrev one_used : Dict Bool
one_used = (address 1, true) ∷ []

few : length one_used < 256 ^ 16
few = omega arith

first_free_host-Answer_example :
    Answer text "10.0.0.0/30" one_used none (first_free_host text "10.0.0.0/30" one_used none)
first_free_host-Answer_example =
    first_free_host-Answer text "10.0.0.0/30" one_used text-IsNetText few none

-- The search gives the second address, and ends where the network does.
second_is_free : first_free_host text "10.0.0.0/30" one_used none ≡ host (address 2)
unfolding first_free_host search_from contains_ip to4 inc string_dec
second_is_free = refl

all_used :
    first_free_host text "10.0.0.0/30"
      ((address 1, true) ∷ (address 2, true) ∷ (address 3, true) ∷ [])
      none
    ≡ failed address_pool_exhausted
unfolding first_free_host search_from contains_ip to4 inc string_dec
all_used = refl
