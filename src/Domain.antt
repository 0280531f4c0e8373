-- ===== src/Domain.antt =====
-- src/domain: the configuration and the statistics that all components pass around.
-- `std::string` is a list of bytes; durations and instants are integers in the unit that each
-- comment names. The floating-point fields of `TransmissionStats` are left out.
use log_generator.Prelude.Int.{ℤ, pos, ◌+ℤ◌, ◌-ℤ◌, ◌*ℤ◌, leb_ℤ, pos_part}
use log_generator.Prelude.{ℕ, suc, Bool, true, false, List, codes, Bytes, if◌then◌else◌}

pub data TransportProtocol : Type 0 where
  udp tcp tls file : TransportProtocol

pub data StreamFraming : Type 0 where
  newline octet_counting : StreamFraming

pub data TransmissionMode : Type 0 where
  sequential parallel : TransmissionMode

pub data UdpPacketization : Type 0 where
  one_event_per_datagram newline_packed : UdpPacketization

unfoldable pub protocol_name : TransportProtocol → Bytes
protocol_name udp = codes "UDP"
protocol_name tcp = codes "TCP"
protocol_name tls = codes "TLS"
protocol_name file = codes "FILE"

unfoldable pub transmission_mode_name : TransmissionMode → Bytes
transmission_mode_name sequential = codes "sequential"
transmission_mode_name parallel = codes "parallel-auto"

unfoldable pub udp_packetization_name : UdpPacketization → Bytes
udp_packetization_name one_event_per_datagram = codes "one-event"
udp_packetization_name newline_packed = codes "newline-packed"

-- `protocol == TransportProtocol::File`, and the like.
abbrev pub is_file : TransportProtocol → Bool
is_file file = true
is_file _ = false

abbrev pub is_udp : TransportProtocol → Bool
is_udp udp = true
is_udp _ = false

abbrev pub is_parallel : TransmissionMode → Bool
is_parallel parallel = true
is_parallel _ = false

abbrev pub is_packed : UdpPacketization → Bool
is_packed newline_packed = true
is_packed _ = false

-- `file_max_duration` is in milliseconds.
pub record EndpointConfig : Type 0 where
  pub protocol : TransportProtocol
  pub host : Bytes
  pub port : ℕ
  pub tls_server_name : Bytes
  pub verify_certificate : Bool
  pub framing : StreamFraming
  pub udp_packetization : UdpPacketization
  pub file_output_directory : Bytes
  pub file_max_total_bytes : ℕ
  pub file_max_count : ℕ
  pub file_max_duration : ℕ

pub record TimeOffset : Type 0 where
  pub negative : Bool
  pub days : ℤ
  pub hours : ℤ
  pub minutes : ℤ

-- In seconds.
unfoldable pub offset_value : TimeOffset → ℤ
offset_value t =
    let seconds = t.days *ℤ pos 86400 +ℤ t.hours *ℤ pos 3600 +ℤ t.minutes *ℤ pos 60 in
    if t.negative then pos 0 -ℤ seconds else seconds

pub data TimestampGenerationMode : Type 0 where
  offset range : TimestampGenerationMode

-- Seconds since the epoch.
pub record TimeRange : Type 0 where
  pub start : ℤ
  pub end : ℤ

unfoldable pub valid : TimeRange → Bool
valid r = leb_ℤ r.start r.end

unfoldable pub inclusive_seconds : TimeRange → ℕ
unfolding valid
inclusive_seconds r = if valid r then suc (pos_part (r.end -ℤ r.start)) else 0

pub record TimestampGeneration : Type 0 where
  pub mode : TimestampGenerationMode
  pub offset : TimeOffset
  pub range : TimeRange

-- `std::map` keeps its keys in order; a test case is its list of entries in that order.
pub record LogTemplate : Type 0 where
  pub id : Bytes
  pub name : Bytes
  pub sample : Bytes
  pub source : Bytes
  pub test_case : List (Bytes × List Bytes)

pub record GeneratorConfig : Type 0 where
  pub endpoint : EndpointConfig
  pub templates : List LogTemplate
  pub source_ip : Bytes
  pub destination_ip : Bytes
  pub timestamp_generation : TimestampGeneration
  pub transmission_mode : TransmissionMode
  pub target_eps : ℕ

pub data GeneratorState : Type 0 where
  stopped connecting running stopping failed : GeneratorState

pub data SendResult : Type 0 where
  sent total_bytes_limit_reached file_count_limit_reached duration_limit_reached : SendResult
