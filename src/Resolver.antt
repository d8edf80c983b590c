-- ===== src/Resolver.antt =====
-- resolver/dns_controller.go
pub mod Cache
pub mod Answers
use kube_overlay_operator.Base.{
  ℕ, ◌+◌, ◌*◌, String, ◌<>◌, Bool, true, false, not, Option, none, some, List, [], ◌∷◌, ◌++◌, ◌==◌,
  ◌||◌, nat_eq, split, trim_suffix, if◌then◌else◌,
}
use kube_overlay_operator.Base.Lists.{length}
use kube_overlay_operator.Base.Dict.{Dict, lookup, insert, get}
use kube_overlay_operator.Base.Result.{ok, err}
use kube_overlay_operator.Api.{OverlayNetwork, OverlayNetworkIpAllocation}
use kube_overlay_operator.External.Client.{
  Client, Log, ApiError, is_not_found, ReconcileResult, done, failure,
}
use kube_overlay_operator.External.Dns.{
  Dns, Msg, Question, opcode_query, type_a, rcode_success, rcode_server_failure, rcode_name_error,
  rcode_not_implemented,
}
use kube_overlay_operator.Net.Bytes.{Ip, to4}
use kube_overlay_operator.Net.Text.{NetText}

-- binary.BigEndian.Uint32; none where it panics for lack of bytes.
abbrev big_endian : List ℕ → Option ℕ
big_endian (a ∷ b ∷ c ∷ d ∷ _) = some (((a * 256 + b) * 256 + c) * 256 + d)
big_endian _ = none

-- The number of an IPv4 address; none where the code panics.
unfoldable pub ip2int : Ip → Option ℕ
ip2int ip = if nat_eq (length ip) 16 then none else big_endian ip

-- Go's map[uint32]net.IP
abbrev pub IpCache : Type 0
IpCache = List (ℕ × Ip)

abbrev pub lookup_ip : ℕ → IpCache → Option Ip
lookup_ip k [] = none
lookup_ip k ((j, ip) ∷ m) = if nat_eq j k then some ip else lookup_ip k m

abbrev pub insert_ip : ℕ → Ip → IpCache → IpCache
insert_ip k ip [] = (k, ip) ∷ []
insert_ip k ip ((j, old) ∷ m) = if nat_eq j k then (k, ip) ∷ m else (j, old) ∷ insert_ip k ip m

pub record NetworkCache : Type 0 where
  pub services : Dict Bool
  pub ip_cache : IpCache

-- The fields of DNSReconciler.
pub record Resolver : Type 0 where
  pub cache : Dict NetworkCache
  pub namespace : String
  pub zone : String
  pub cluster_domain : String

-- NewDNSReconciler
unfoldable pub new_resolver : String → String → String → Resolver
new_resolver namespace zone cluster_domain = record {
  cache = [];
  namespace = namespace;
  zone = zone;
  cluster_domain = if cluster_domain == "" then "cluster.local" else cluster_domain;
}

-- net.ParseIP(s).To4(), which is nil also where the text does not parse.
abbrev pub parse_v4 : NetText → String → Option Ip
parse_v4 net s = elim (net.parse_ip s) [ none ↦ none | some ip ↦ to4 ip ]

-- The body of the loop over the allocations, on their two addresses; none is a panic.
abbrev pub cache_addresses : Option Ip → Option Ip → IpCache → Option IpCache
cache_addresses (some pod_ip) (some tunnel_ip) m = elim (ip2int pod_ip) [
  | none ↦ none
  | some k ↦ some (insert_ip k tunnel_ip m)
]
cache_addresses _ _ m = some m

-- `delete(m, k)`
abbrev pub delete {ℓ} : {V : Type ℓ} → String → Dict V → Dict V
delete k [] = []
delete k ((j, v) ∷ m) = if j == k then delete k m else (j, v) ∷ delete k m

module _ (net : NetText) where
  unfoldable pub cache_allocations : List OverlayNetworkIpAllocation → IpCache → Option IpCache
  cache_allocations [] m = some m
  cache_allocations (al ∷ rest) m =
      elim (cache_addresses (parse_v4 net al.pod_ip) (parse_v4 net al.ip) m) [
        | none ↦ none
        | some m' ↦ cache_allocations rest m'
      ]

  -- `nc.services[svc] = true` for each name.
  unfoldable pub allow_services : List String → Dict Bool → Dict Bool
  allow_services [] m = m
  allow_services (svc ∷ rest) m = allow_services rest (insert svc true m)

  -- The cache of a network; none is a panic.
  unfoldable pub network_cache : OverlayNetwork → Option NetworkCache
  network_cache nw = elim (cache_allocations nw.status.allocations []) [
    | none ↦ none
    | some m ↦ some (record { services = allow_services nw.spec.service_names []; ip_cache = m })
  ]

  -- Reconcile; none is a panic.
  unfoldable pub reconcile :
      Client → Resolver → String → String → Log → Option (Resolver × ReconcileResult)
  reconcile c r namespace name log = elim (c.get_network log namespace name) [
    | err e ↦
        if is_not_found e
        then some (record r { cache = delete name r.cache }, done)
        else some (r, failure e)
    | ok nw ↦ elim (network_cache nw) [
      | none ↦ none
      | some nc ↦ some (record r { cache = insert nw.meta.name nc r.cache }, done)
    ]
  ]

module _ (net : NetText) (dns : Dns) (resolve : String → Option (List Ip)) where
  -- The body of the loop over the resolved addresses: the records it adds; none is a panic.
  unfoldable pub records_for : String → IpCache → Ip → Option (List dns.Rr)
  records_for name m ip = elim (to4 ip) [
    | none ↦ some []
    | some v4 ↦ elim (ip2int v4) [
      | none ↦ none
      | some k ↦ elim (lookup_ip k m) [
        | none ↦ some []
        | some target ↦ elim (dns.new_rr (name <> (" 60 A " <> net.ip_string target))) [
          | none ↦ some []
          | some rr ↦ some (rr ∷ [])
        ]
      ]
    ]
  ]

  unfoldable pub add_records : String → IpCache → List Ip → List dns.Rr → Option (List dns.Rr)
  add_records name m [] answer = some answer
  add_records name m (ip ∷ rest) answer = elim (records_for name m ip) [
    | none ↦ none
    | some rrs ↦ add_records name m rest (answer ++ rrs)
  ]

  -- The code for an answer.
  abbrev pub rcode_for : List dns.Rr → ℕ
  rcode_for [] = rcode_name_error
  rcode_for (rr ∷ rrs) = rcode_success

  -- processDnsRequest behind the tests of the name, for a service of a network.
  unfoldable pub answer_service :
      Resolver → String → String → NetworkCache → Msg dns.Rr → Msg dns.Rr → Option (Msg dns.Rr)
  answer_service r name svc_name nw reply q =
      elim (resolve (svc_name <> ("." <> (r.namespace <> (".svc." <> r.cluster_domain))))) [
        | none ↦ some (dns.set_rcode reply q rcode_server_failure)
        | some res ↦ elim (add_records name nw.ip_cache res reply.answer) [
          | none ↦ none
          | some answer ↦
              some (dns.set_rcode (record reply { answer = answer }) q (rcode_for answer))
        ]
      ]

  -- The service and the network that a name has before the zone.
  abbrev pub service_and_network : List String → Option (String × String)
  service_and_network (svc_name ∷ nw_name ∷ []) = some (svc_name, nw_name)
  service_and_network _ = none

  unfoldable pub process_dns_request :
      Resolver → String → Msg dns.Rr → Msg dns.Rr → Option (Msg dns.Rr)
  process_dns_request r name reply q =
      elim (service_and_network (split (trim_suffix name ("." <> r.zone)) b'.')) [
        | none ↦ some (dns.set_rcode reply q rcode_name_error)
        | some (svc_name, nw_name) ↦ elim (lookup nw_name r.cache) [
          | none ↦ some (dns.set_rcode reply q rcode_name_error)
          | some nw ↦
              if not (get false svc_name nw.services)
              then some (dns.set_rcode reply q rcode_name_error)
              else answer_service r name svc_name nw reply q
        ]
      ]

  -- The message that handleDnsRequest writes; none is a panic.
  unfoldable pub handle_dns_request : Resolver → Msg dns.Rr → Option (Msg dns.Rr)
  handle_dns_request r q =
      let reply = dns.set_reply q in
      elim reply.question [
        | q0 ∷ [] ↦
            if not (nat_eq q.opcode opcode_query)
            then some (dns.set_rcode reply q rcode_not_implemented)
            else if nat_eq q0.qtype type_a
            then process_dns_request r q0.name reply q
            else some (dns.set_rcode reply q rcode_name_error)
        | _ ↦ some (dns.set_rcode reply q rcode_not_implemented)
      ]
