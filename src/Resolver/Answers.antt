-- ===== src/Resolver/Answers.antt =====
-- What the resolver answers to a DNS query.
use mathlib.Core.Option.{some-injective}
use kube_overlay_operator.Base.{
  ℕ, String, ◌<>◌, true, false, ◌≡◌, ◌≢◌, ◌↔◌, refl, sym, subst, ◌∙◌, Option, none, some, List, [],
  ◌∷◌, ◌++◌, inl, inr, arith, nat_eq, split, trim_suffix, Bool-cases, Option-cases,
}
use kube_overlay_operator.Base.Lists.{All, All-append}
use kube_overlay_operator.Base.Dict.{lookup, get}
use kube_overlay_operator.External.Dns.{
  Dns, IsDns, Msg, Question, rcode_success, rcode_server_failure, rcode_name_error,
  rcode_not_implemented, opcode_query, type_a,
}
use kube_overlay_operator.Net.Bytes.{Ip, to4}
use kube_overlay_operator.Net.Text.{NetText}
use kube_overlay_operator.Resolver.{
  ip2int, IpCache, lookup_ip, NetworkCache, Resolver, records_for, add_records, rcode_for,
  service_and_network, answer_service, process_dns_request, handle_dns_request,
}
use kube_overlay_operator.Resolver.Cache.{ip2int-to4}

module _ (net : NetText) (dns : Dns) (resolve : String → Option (List Ip)) where
  -- The text of a record.
  abbrev pub a_record : String → Ip → String
  a_record name target = name <> (" 60 A " <> net.ip_string target)

  -- A record of a name for an entry of the cache.
  pub record IsCached (name : String) (m : IpCache) (rr : dns.Rr) : Type 0 where
    pub key : ℕ
    pub target : Ip
    pub cached : lookup_ip key m ≡ some target
    pub printed : dns.new_rr (a_record name target) ≡ some rr

  records_for-IsCached :
      (name : String) (m : IpCache) (ip : Ip) (rrs : List dns.Rr)
      → records_for net dns resolve name m ip ≡ some rrs
      → All (IsCached name m) rrs
  unfolding records_for
  records_for-IsCached name m ip rrs e = elim (Option-cases (to4 ip)) [
    | inl six ↦
        subst (All (IsCached name m)) (some-injective [] rrs (rw (six, records_for) at e)) tt
    | inr (v4, four) ↦ elim (Option-cases (ip2int v4)) [
      | inl panic ↦ absurd (ip2int-to4 ip v4 four panic)
      | inr (k, number) ↦ elim (Option-cases (lookup_ip k m)) [
        | inl absent ↦
            subst (All (IsCached name m))
              (some-injective [] rrs (rw (four, number, absent, records_for) at e)) tt
        | inr (target, there) ↦ elim (Option-cases (dns.new_rr (a_record name target))) [
          | inl bad ↦
              subst (All (IsCached name m))
                (some-injective [] rrs (rw (four, number, there, bad, records_for) at e)) tt
          | inr (rr, good) ↦
              subst (All (IsCached name m))
                (some-injective (rr ∷ []) rrs (rw (four, number, there, good, records_for) at e))
                (record { key = k; target = target; cached = there; printed = good }, tt)
        ]
      ]
    ]
  ]

  records_for_total :
      (name : String) (m : IpCache) (ip : Ip) → records_for net dns resolve name m ip ≢ none
  unfolding records_for
  records_for_total name m ip = elim (Option-cases (to4 ip)) [
    | inl six ↦ ground (arith, six)
    | inr (v4, four) ↦ ground (arith, four, ip2int-to4 ip v4 four)
  ]

  add_records-IsCached :
      (name : String) (m : IpCache) (ips : List Ip) (old new : List dns.Rr)
      → All (IsCached name m) old
      → add_records net dns resolve name m ips old ≡ some new
      → All (IsCached name m) new
  unfolding add_records
  add_records-IsCached name m [] old new h e =
      subst (All (IsCached name m)) (some-injective old new e) h
  add_records-IsCached name m (ip ∷ ips) old new h e =
      elim (Option-cases (records_for net dns resolve name m ip)) [
        | inl panic ↦ absurd (records_for_total name m ip panic)
        | inr (rrs, found) ↦
            add_records-IsCached name m ips (old ++ rrs) new
              (All-append (IsCached name m) old rrs h (records_for-IsCached name m ip rrs found))
              (rw (found, add_records) at e)
      ]

  add_records_total :
      (name : String) (m : IpCache) (ips : List Ip) (old : List dns.Rr)
      → add_records net dns resolve name m ips old ≢ none
  unfolding add_records
  add_records_total name m [] old = ground arith
  add_records_total name m (ip ∷ ips) old =
      elim (Option-cases (records_for net dns resolve name m ip)) [
        | inl panic ↦ absurd (records_for_total name m ip panic)
        | inr (rrs, found) ↦
            λ e. add_records_total name m ips (old ++ rrs) (rw (found, add_records) at e)
      ]

  -- A record that the resolver may give for a name: the name has a service and a network before the
  -- zone, the network is cached and allows the service, and the record is for an entry of its cache.
  pub record IsServed (r : Resolver) (name : String) (rr : dns.Rr) : Type 0 where
    pub service : String
    pub network : String
    pub parts : split (trim_suffix name ("." <> r.zone)) b'.' ≡ service ∷ network ∷ []
    pub cache : NetworkCache
    pub known : lookup network r.cache ≡ some cache
    pub permitted : get false service cache.services ≡ true
    pub entry : IsCached name cache.ip_cache rr

  -- A message with records for a name only, and with the code for success just if it has some.
  pub record IsReply (r : Resolver) (name : String) (m : Msg dns.Rr) : Type 0 where
    pub served : All (IsServed r name) m.answer
    pub success_iff : (m.rcode ≡ rcode_success) ↔ (m.answer ≢ [])

  -- The outcome of a query: a message, not a panic.
  abbrev pub Replies : Resolver → String → Option (Msg dns.Rr) → Type 0
  Replies r name none = ⊥
  Replies r name (some m) = IsReply r name m

  -- The name that a message asks for.
  abbrev pub asked : List Question → String
  asked [] = ""
  asked (q ∷ qs) = q.name

  All-IsServed :
      (r : Resolver) (name service network : String) (cache : NetworkCache) (rrs : List dns.Rr)
      → split (trim_suffix name ("." <> r.zone)) b'.' ≡ service ∷ network ∷ []
      → lookup network r.cache ≡ some cache
      → get false service cache.services ≡ true
      → All (IsCached name cache.ip_cache) rrs
      → All (IsServed r name) rrs
  All-IsServed r name service network cache [] parts known permitted h = tt
  All-IsServed r name service network cache (rr ∷ rrs) parts known permitted (h, hs) =
      let first : IsServed r name rr = record {
        service = service;
        network = network;
        parts = parts;
        cache = cache;
        known = known;
        permitted = permitted;
        entry = h;
      } in
      (first, All-IsServed r name service network cache rrs parts known permitted hs)

  rcode_for-success_iff :
      (rrs : List dns.Rr) → (rcode_for net dns resolve rrs ≡ rcode_success) ↔ (rrs ≢ [])
  rcode_for-success_iff [] = ground arith
  rcode_for-success_iff (rr ∷ rrs) = ground arith

  module _ (laws : IsDns dns) where
    refusal-IsReply :
        (r : Resolver) (name : String) (q : Msg dns.Rr) (code : ℕ)
        → code ≢ rcode_success
        → IsReply r name (dns.set_rcode (dns.set_reply q) q code)
    refusal-IsReply r name q code ne =
        let bare = laws.answer-set_rcode (dns.set_reply q) q code ∙ laws.answer-set_reply q in
        let coded = laws.rcode-set_rcode (dns.set_reply q) q code in
        record {
          served = subst (All (IsServed r name)) (sym bare) tt;
          success_iff = ((λ e. absurd (ne (sym coded ∙ e))), λ f. absurd (f bare));
        }

    -- A message with the answer and its code set.
    answer-IsReply :
        (r : Resolver) (name : String) (q : Msg dns.Rr) (rrs : List dns.Rr)
        → All (IsServed r name) rrs
        → IsReply r name (
            dns.set_rcode
              (record (dns.set_reply q) { answer = rrs })
              q
              (rcode_for net dns resolve rrs))
    answer-IsReply r name q rrs h =
        let reply : Msg dns.Rr = record (dns.set_reply q) { answer = rrs } in
        let code = rcode_for net dns resolve rrs in
        let held : (dns.set_rcode reply q code).answer ≡ rrs = laws.answer-set_rcode reply q code in
        let coded = laws.rcode-set_rcode reply q code in
        record {
          served = subst (All (IsServed r name)) (sym held) h;
          success_iff = (
            (λ e f. (rcode_for-success_iff rrs).0 (sym coded ∙ e) (sym held ∙ f)),
            (λ f. coded ∙ (rcode_for-success_iff rrs).1 (λ e. f (held ∙ e))),
          );
        }

    returned-Replies :
        {r : Resolver} {name : String} (m : Msg dns.Rr)
        → IsReply r name m
        → {o : Option (Msg dns.Rr)} → o ≡ some m
        → Replies r name o
    returned-Replies {r} {name} m h e = subst (Replies r name) (sym e) h

    answer_service-Replies :
        (r : Resolver) (name service network : String) (cache : NetworkCache) (q : Msg dns.Rr)
        → split (trim_suffix name ("." <> r.zone)) b'.' ≡ service ∷ network ∷ []
        → lookup network r.cache ≡ some cache
        → get false service cache.services ≡ true
        → Replies r name (answer_service net dns resolve r name service cache (dns.set_reply q) q)
    unfolding answer_service
    answer_service-Replies r name service network cache q parts known permitted =
        let host = service <> ("." <> (r.namespace <> (".svc." <> r.cluster_domain))) in
        let before = (dns.set_reply q).answer in
        elim (Option-cases (resolve host)) [
          | inl unresolved ↦
              returned-Replies (dns.set_rcode (dns.set_reply q) q rcode_server_failure)
                (refusal-IsReply r name q rcode_server_failure (ground arith))
                (rw (unresolved, answer_service))
          | inr (ips, resolved) ↦
              elim (Option-cases (add_records net dns resolve name cache.ip_cache ips before)) [
                | inl panic ↦ absurd (add_records_total name cache.ip_cache ips before panic)
                | inr (rrs, added) ↦
                    returned-Replies
                      (dns.set_rcode (record (dns.set_reply q) { answer = rrs }) q
                        (rcode_for net dns resolve rrs))
                      (answer-IsReply r name q rrs (
                        All-IsServed r name service network cache rrs parts known permitted (
                          add_records-IsCached name cache.ip_cache ips before rrs
                            (subst (All (IsCached name cache.ip_cache))
                              (sym (laws.answer-set_reply q)) tt)
                            added)))
                      (rw (resolved, added, answer_service))
              ]
        ]

    name_error-Replies :
        (r : Resolver) (name : String) (q : Msg dns.Rr)
        → {o : Option (Msg dns.Rr)} → o ≡ some (dns.set_rcode (dns.set_reply q) q rcode_name_error)
        → Replies r name o
    name_error-Replies r name q e =
        returned-Replies (dns.set_rcode (dns.set_reply q) q rcode_name_error)
          (refusal-IsReply r name q rcode_name_error (ground arith)) e

    two_parts :
        (parts : List String) (service network : String)
        → service_and_network net dns resolve parts ≡ some (service, network)
        → parts ≡ service ∷ network ∷ []
    two_parts [] service network e = ground (arith, e)
    two_parts (s ∷ []) service network e = ground (arith, e)
    two_parts (s ∷ n ∷ []) service network e = grind (arith, e)
    two_parts (s ∷ n ∷ x ∷ xs) service network e = ground (arith, e)

    process_dns_request-Replies :
        (r : Resolver) (name : String) (q : Msg dns.Rr)
        → Replies r name (process_dns_request net dns resolve r name (dns.set_reply q) q)
    unfolding process_dns_request
    process_dns_request-Replies r name q =
        let parts = split (trim_suffix name ("." <> r.zone)) b'.' in
        elim (Option-cases (service_and_network net dns resolve parts)) [
          | inl other ↦ name_error-Replies r name q (rw (other, process_dns_request))
          | inr ((svc, nw), two) ↦ elim (Option-cases (lookup nw r.cache)) [
            | inl absent ↦ name_error-Replies r name q (rw (two, absent, process_dns_request))
            | inr (cache, known) ↦ elim (Bool-cases (get false svc cache.services)) [
              | inl permitted ↦
                  subst (Replies r name)
                    {x = answer_service net dns resolve r name svc cache (dns.set_reply q) q}
                    (sym (rw (two, known, permitted, process_dns_request)))
                    (answer_service-Replies r name svc nw cache q (two_parts parts svc nw two) known
                      permitted)
              | inr denied ↦
                  name_error-Replies r name q (rw (two, known, denied, process_dns_request))
            ]
          ]
        ]

    not_implemented-Replies :
        (r : Resolver) (name : String) (q : Msg dns.Rr)
        → {o : Option (Msg dns.Rr)}
        → o ≡ some (dns.set_rcode (dns.set_reply q) q rcode_not_implemented)
        → Replies r name o
    not_implemented-Replies r name q e =
        returned-Replies (dns.set_rcode (dns.set_reply q) q rcode_not_implemented)
          (refusal-IsReply r name q rcode_not_implemented (ground arith)) e

    one_question-Replies :
        (r : Resolver) (q : Msg dns.Rr) (q0 : Question)
        → (dns.set_reply q).question ≡ q0 ∷ []
        → Replies r q0.name (handle_dns_request net dns resolve r q)
    unfolding handle_dns_request
    one_question-Replies r q q0 single = elim (Bool-cases (nat_eq q.opcode opcode_query)) [
      | inr other ↦ not_implemented-Replies r q0.name q (simp (single, other, handle_dns_request))
      | inl query ↦ elim (Bool-cases (nat_eq q0.qtype type_a)) [
        | inr other ↦
            name_error-Replies r q0.name q (simp (single, query, other, handle_dns_request))
        | inl a ↦
            subst (Replies r q0.name)
              {x = process_dns_request net dns resolve r q0.name (dns.set_reply q) q}
              (sym (simp (single, query, a, handle_dns_request)))
              (process_dns_request-Replies r q0.name q)
      ]
    ]

    Replies-questions :
        (r : Resolver) (q : Msg dns.Rr) (qs : List Question)
        → (dns.set_reply q).question ≡ qs
        → Replies r (asked qs) (handle_dns_request net dns resolve r q)
    unfolding handle_dns_request
    Replies-questions r q [] e = not_implemented-Replies r "" q (simp (e, handle_dns_request))
    Replies-questions r q (q0 ∷ []) e = one_question-Replies r q q0 e
    Replies-questions r q (q0 ∷ q1 ∷ qs) e =
        not_implemented-Replies r q0.name q (simp (e, handle_dns_request))

    -- The server answers every query, without a panic. Its records are all for the name that the
    -- message asks for, which has a service and a cached network that allows it before the zone, and
    -- each is printed for an address that the cache of that network maps a number to. The code is
    -- success just if there is a record.
    pub handle_dns_request-Replies :
        (r : Resolver) (q : Msg dns.Rr)
        → Replies r (asked (dns.set_reply q).question) (handle_dns_request net dns resolve r q)
    handle_dns_request-Replies r q = Replies-questions r q (dns.set_reply q).question refl
