-- ===== src/Aggregate/Flow.antt =====
-- One flow record as backend/internal/services/aggregator.go reads it: its bucket, its two nodes in
-- normal order, and the port that names the service. Counters and protocols are signed integers of
-- 64 bits, as bit patterns; ports are not negative; times are Unix seconds from 1970 on. The device cache is an argument.
use tsflow.Prelude.{
  ℕ, ◌*◌, ◌/◌, String, ◌≡◌, ◌↔◌, Bool, true, false, not, ◌&&◌, Option, none, some, arith, Eq, ◌==◌,
  String_eq, eq_iff, eqb, ltb, leb, if◌then◌else◌,
}
use tsflow.Prelude.Sort.{before_str}

-- database.FlowLog
pub record FlowLog : Type 0 where
  pub logged_at : ℕ
  pub node_id : String
  pub traffic_type : String
  pub protocol : ℕ
  pub src_ip : String
  pub src_port : ℕ
  pub dst_ip : String
  pub dst_port : ℕ
  pub tx_bytes : ℕ
  pub rx_bytes : ℕ
  pub tx_pkts : ℕ
  pub rx_pkts : ℕ

-- What `aggregate` asks of the device cache: the id of a listed device, and of an address.
pub record Devices : Type 0 where
  pub device_id : String → Option String
  pub resolve_ip : String → String

abbrev pub bucket_size : ℕ
bucket_size = 60

unfoldable pub bucket_of : FlowLog → ℕ
bucket_of log = log.logged_at / bucket_size * bucket_size

abbrev pub is_physical : FlowLog → Bool
is_physical log = log.traffic_type == "physical"

abbrev ephemeral_port_min : ℕ
ephemeral_port_min = 32768

-- servicePort
unfoldable pub service_port : FlowLog → ℕ
service_port log =
    if leb ephemeral_port_min log.dst_port
      && ltb 0 log.src_port
      && ltb log.src_port ephemeral_port_min
    then log.src_port
    else log.dst_port

listed_sender : Devices → FlowLog → Option String → String
listed_sender d log none = d.resolve_ip log.src_ip
listed_sender d log (some id) = if not (id == "") then id else d.resolve_ip log.src_ip

-- physicalSender
unfoldable pub physical_sender : Devices → FlowLog → String
unfolding listed_sender
physical_sender d log =
    if is_physical log && not (log.node_id == "")
    then listed_sender d log (d.device_id log.node_id)
    else d.resolve_ip log.src_ip

-- nodePairKey
pub record PairKey : Type 0 where
  pub bucket : ℕ
  pub node_a : String
  pub node_b : String
  pub traffic_type : String

abbrev pub pair_beq : PairKey → PairKey → Bool
pair_beq a b =
    eqb a.bucket b.bucket
    && a.node_a == b.node_a
    && a.node_b == b.node_b
    && a.traffic_type == b.traffic_type

pub pair_beq_iff : (a b : PairKey) → (pair_beq a b ≡ true) ↔ (a ≡ b)
pair_beq_iff a b = ground (
  arith,
  eq_iff a.node_a b.node_a,
  eq_iff a.node_b b.node_b,
  eq_iff a.traffic_type b.traffic_type,
)

instance abbrev pub PairKey_eq : Eq PairKey
PairKey_eq = record { beq = pair_beq; beq_iff = pair_beq_iff }

module _ (d : Devices) where
  abbrev pub sender : FlowLog → String
  sender log = physical_sender d log

  abbrev pub receiver : FlowLog → String
  receiver log = d.resolve_ip log.dst_ip

  -- The record goes from node B to node A of its pair.
  unfoldable pub is_reverse : FlowLog → Bool
  is_reverse log =
      if sender log == receiver log
      then false
      else if before_str (sender log) (receiver log)
      then false
      else true

  unfoldable pub pair_key : FlowLog → PairKey
  unfolding is_reverse
  pair_key log = record {
    bucket = bucket_of log;
    node_a = if is_reverse log then receiver log else sender log;
    node_b = if is_reverse log then sender log else receiver log;
    traffic_type = log.traffic_type;
  }
