-- ===== src/External/Dns.antt =====
-- github.com/miekg/dns: messages, and the functions on them that the code calls.
use kube_overlay_operator.Base.{ℕ, String, ◌≡◌, Option, List, []}

pub record Question : Type 0 where
  pub name : String
  pub qtype : ℕ

-- dns.Msg, over the type of resource records.
pub record Msg (Rr : Type 0) : Type 0 where
  pub opcode : ℕ
  pub rcode : ℕ
  pub question : List Question
  pub answer : List Rr

-- Constants of the DNS protocol.
abbrev pub opcode_query : ℕ
opcode_query = 0

abbrev pub type_a : ℕ
type_a = 1

abbrev pub rcode_success : ℕ
rcode_success = 0

abbrev pub rcode_server_failure : ℕ
rcode_server_failure = 2

abbrev pub rcode_name_error : ℕ
rcode_name_error = 3

abbrev pub rcode_not_implemented : ℕ
rcode_not_implemented = 4

-- SetReply on an empty message, SetRcode(reply, request, code), and NewRR.
pub record Dns : Type 1 where
  pub Rr : Type 0
  pub set_reply : Msg Rr → Msg Rr
  pub set_rcode : Msg Rr → Msg Rr → ℕ → Msg Rr
  pub new_rr : String → Option Rr

-- SetRcode sets the code and SetReply starts without an answer; neither touches other answers.
pub record IsDns (dns : Dns) : Type 0 where
  pub answer-set_reply : (q : Msg dns.Rr) → (dns.set_reply q).answer ≡ []
  pub answer-set_rcode :
      (reply q : Msg dns.Rr) (code : ℕ) → (dns.set_rcode reply q code).answer ≡ reply.answer
  pub rcode-set_rcode :
      (reply q : Msg dns.Rr) (code : ℕ) → (dns.set_rcode reply q code).rcode ≡ code
