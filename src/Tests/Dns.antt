-- ===== src/Tests/Dns.antt =====
-- The resolver at a concrete cache and query.
use kube_overlay_operator.Base.{
  ℕ, String, ◌<>◌, true, false, ◌≡◌, ◌≢◌, refl, Option, none, some, List, [], ◌∷◌,
}
use kube_overlay_operator.Base.Strings.{string_dec, split, trim_suffix}
use kube_overlay_operator.Base.Lists.{contains}
use kube_overlay_operator.Base.Dict.{get}
use kube_overlay_operator.External.Dns.{Dns, IsDns, Msg, opcode_query, type_a, rcode_success}
use kube_overlay_operator.Net.Bytes.{Ip, to4}
use kube_overlay_operator.Resolver.{
  NetworkCache, Resolver, lookup_ip, ip2int, cache_allocations, allow_services, network_cache,
  records_for, add_records, answer_service, process_dns_request, handle_dns_request,
}
use kube_overlay_operator.Resolver.Cache.{Maps, network_cache_lem, network_cache_total}
use kube_overlay_operator.Resolver.Answers.{Replies, handle_dns_request-Replies}
use kube_overlay_operator.Tests.Text.{mapped, text}
use kube_overlay_operator.Tests.Objects.{lan}

-- Records as their texts.
abbrev dns : Dns
dns = record {
  Rr = String;
  set_reply = λ q. record q { rcode = rcode_success; answer = [] };
  set_rcode = λ reply q code. record reply { rcode = code };
  new_rr = λ s. some s;
}

dns-IsDns : IsDns dns
dns-IsDns = record {
  answer-set_reply = λ q. refl;
  answer-set_rcode = λ reply q code. refl;
  rcode-set_rcode = λ reply q code. refl;
}

-- 192.168.0.7 as a number, and the address of its pod in the network.
abbrev lan_cache : NetworkCache
lan_cache = record {
  services = ("web", true) ∷ [];
  ip_cache = (3232235527, 10 ∷ 0 ∷ 0 ∷ 1 ∷ []) ∷ [];
}

lan-cached : network_cache text lan ≡ some lan_cache
unfolding network_cache cache_allocations allow_services to4 ip2int string_dec
lan-cached = refl

network_cache_lem_example :
    ((svc : String) → get false svc lan_cache.services ≡ contains lan.spec.service_names svc)
    × ((k : ℕ) (target : Ip)
        → lookup_ip k lan_cache.ip_cache ≡ some target
        → Maps text lan.status.allocations k target)
network_cache_lem_example = network_cache_lem text lan lan_cache lan-cached

network_cache_total_example : network_cache text lan ≢ none
network_cache_total_example = network_cache_total text lan

abbrev resolver : Resolver
resolver = record {
  cache = ("lan", lan_cache) ∷ [];
  namespace = "default";
  zone = "overlay.";
  cluster_domain = "cluster.local";
}

-- The cluster resolves each name to the pod's address.
abbrev resolve : String → Option (List Ip)
resolve name = some (mapped (192 ∷ 168 ∷ 0 ∷ 7 ∷ []) ∷ [])

abbrev query : Msg dns.Rr
query = record {
  opcode = opcode_query;
  rcode = rcode_success;
  question = record { name = "web.lan.overlay."; qtype = type_a } ∷ [];
  answer = [];
}

handle_dns_request-Replies_example :
    Replies text dns resolve resolver "web.lan.overlay."
      (handle_dns_request text dns resolve resolver query)
handle_dns_request-Replies_example =
    handle_dns_request-Replies text dns resolve dns-IsDns resolver query

-- The query gets one record.
one_record :
    handle_dns_request text dns resolve resolver query
    ≡ some (record query {
      answer = ("web.lan.overlay. 60 A " <> text.ip_string (10 ∷ 0 ∷ 0 ∷ 1 ∷ [])) ∷ [];
    })
unfolding handle_dns_request process_dns_request answer_service add_records records_for ip2int to4
    split trim_suffix string_dec
one_record = refl
