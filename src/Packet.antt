-- ===== src/Packet.antt =====
-- source/server/io_wally/protocol: the MQTT control packets, as their constructors make them.
pub mod PublishPacket
use mathlib.Core.Option
use wally_io.Prelude.{
  ℕ, ◌+◌, ◌-◌, ◌*◌, ◌%◌, ◌^◌, bit_and, bit_or, Bytes, List, [], ◌∷◌, map, Bool, ◌==◌, length,
  if◌then◌else◌, Option, none, some, Result, ok, err, ◌>>=◌, ◌>>◌, assertion_failed,
}
use wally_io.Protocol.{
  QoS, at_most_once, at_least_once, exactly_once, reserved, qos_value, same_qos, qos_of, PacketType,
  type_of, type_into, dup_of, dup_into, qos_into, retain_of, retain_into, ProtocolLevel, level4,
  unsupported,
}
use wally_io.Topic.{assert_well_formed_topic_filter}

-- `mqtt_packet`, the base of all: the two fields of the fixed header.
pub record FixedHeader : Type 0 where
  pub type_and_flags : ℕ
  pub remaining_length : ℕ

-- `mqtt_ack`
unfoldable pub mqtt_ack : PacketType → ℕ → ℕ → FixedHeader
mqtt_ack type remaining_length flags = record {
  type_and_flags = type_into type flags;
  remaining_length = remaining_length;
}

pub record Connect : Type 0 where
  pub header : FixedHeader
  pub prot_name : Bytes
  pub prot_level : ℕ
  pub con_flags : ℕ
  pub keep_alive_secs : ℕ
  pub client_id : Bytes
  pub will_topic : Option Bytes
  pub will_message : Option Bytes
  pub username : Option Bytes
  pub password : Option Bytes

pub data ConnectReturnCode : Type 0 where
  connection_accepted unacceptable_protocol_version identifier_rejected : ConnectReturnCode
  server_unavailable bad_username_or_password not_authorized reserved_code : ConnectReturnCode

pub record Connack : Type 0 where
  pub header : FixedHeader
  pub session_present : Bool
  pub return_code : ConnectReturnCode

pub record Publish : Type 0 where
  pub header : FixedHeader
  pub topic : Bytes
  pub packet_identifier : ℕ
  pub application_message : Bytes

-- `publish_ack` and `unsuback`: a packet that holds a packet identifier alone.
pub record PublishAck : Type 0 where
  pub header : FixedHeader
  pub packet_identifier : ℕ

pub record Subscription : Type 0 where
  pub topic_filter : Bytes
  pub maximum_qos : QoS

pub record Subscribe : Type 0 where
  pub header : FixedHeader
  pub packet_identifier : ℕ
  pub subscriptions : List Subscription

pub data SubackReturnCode : Type 0 where
  maximum_qos0 maximum_qos1 maximum_qos2 failure reserved_code : SubackReturnCode

pub record Suback : Type 0 where
  pub header : FixedHeader
  pub packet_identifier : ℕ
  pub return_codes : List SubackReturnCode

pub record Unsubscribe : Type 0 where
  pub header : FixedHeader
  pub packet_identifier : ℕ
  pub topic_filters : List Bytes

-- The subclasses of `mqtt_packet`.
pub data MqttPacket : Type 0 where
  connect : Connect → MqttPacket
  connack : Connack → MqttPacket
  publish : Publish → MqttPacket
  puback pubrec pubrel pubcomp : PublishAck → MqttPacket
  subscribe : Subscribe → MqttPacket
  suback : Suback → MqttPacket
  unsubscribe : Unsubscribe → MqttPacket
  unsuback : PublishAck → MqttPacket
  pingreq pingresp disconnect : FixedHeader → MqttPacket

abbrev pub header_of : MqttPacket → FixedHeader
header_of (connect p) = p.header
header_of (connack p) = p.header
header_of (publish p) = p.header
header_of (puback p) = p.header
header_of (pubrec p) = p.header
header_of (pubrel p) = p.header
header_of (pubcomp p) = p.header
header_of (subscribe p) = p.header
header_of (suback p) = p.header
header_of (unsubscribe p) = p.header
header_of (unsuback p) = p.header
header_of (pingreq h) = h
header_of (pingresp h) = h
header_of (disconnect h) = h

-- `mqtt_packet::type( )`
abbrev pub packet_type : MqttPacket → PacketType
packet_type p = type_of (header_of p).type_and_flags

unfoldable pub make_connack : Bool → ConnectReturnCode → Connack
unfolding mqtt_ack
make_connack session_present return_code = record {
  header = mqtt_ack PacketType.connack 2 0x00;
  session_present = session_present;
  return_code = return_code;
}

unfoldable pub make_suback : ℕ → List SubackReturnCode → Suback
unfolding mqtt_ack
make_suback packet_identifier return_codes = record {
  header = mqtt_ack PacketType.suback ((2 + length return_codes % 2 ^ 32) % 2 ^ 32) 0x00;
  packet_identifier = packet_identifier;
  return_codes = return_codes;
}

unfoldable pub make_publish_ack : PacketType → ℕ → ℕ → PublishAck
unfolding mqtt_ack
make_publish_ack type packet_identifier flags = record {
  header = mqtt_ack type 2 flags;
  packet_identifier = packet_identifier;
}

abbrev pub make_puback : ℕ → PublishAck
make_puback packet_identifier = make_publish_ack PacketType.puback packet_identifier 0x00

abbrev pub make_pubrec : ℕ → PublishAck
make_pubrec packet_identifier = make_publish_ack PacketType.pubrec packet_identifier 0x00

abbrev pub make_pubrel : ℕ → PublishAck
make_pubrel packet_identifier = make_publish_ack PacketType.pubrel packet_identifier 0x02

abbrev pub make_pubcomp : ℕ → PublishAck
make_pubcomp packet_identifier = make_publish_ack PacketType.pubcomp packet_identifier 0x00

abbrev pub make_unsuback : ℕ → PublishAck
make_unsuback packet_identifier = make_publish_ack PacketType.unsuback packet_identifier 0x00

abbrev pub make_pingreq : FixedHeader
make_pingreq = record { type_and_flags = 0x0C * 2 ^ 4; remaining_length = 0x00 }

abbrev pub make_pingresp : FixedHeader
make_pingresp = record { type_and_flags = 0x0D * 2 ^ 4; remaining_length = 0x00 }

abbrev pub make_disconnect : FixedHeader
make_disconnect = record { type_and_flags = 0x0E * 2 ^ 4; remaining_length = 0x00 }

-- What `std::string{ptr}` takes of a C string: the bytes up to the first NUL.
unfoldable pub c_string : Bytes → Bytes
c_string [] = []
c_string (b ∷ bs) = if b == 0 then [] else b ∷ c_string bs

-- The pointers are `none` where they are nullptr.
unfoldable pub make_connect :
    ℕ → Bytes → ℕ → ℕ → ℕ → Bytes → Option Bytes → Bytes → Option Bytes → Option Bytes → Connect
unfolding c_string
make_connect remaining_length prot_name prot_level con_flags keep_alive_secs client_id will_topic
      will_message username password =
    record {
      header = record { type_and_flags = 0x01 * 2 ^ 4; remaining_length = remaining_length };
      prot_name = c_string prot_name;
      prot_level = prot_level;
      con_flags = con_flags;
      keep_alive_secs = keep_alive_secs;
      client_id = c_string client_id;
      will_topic = Option.map c_string will_topic;
      will_message = Option.map (λ _. will_message) will_topic;
      username = Option.map c_string username;
      password = Option.map c_string password;
    }

-- `connect_flags`
unfoldable pub has_username : ℕ → Bool
has_username con_flags = bit_and con_flags 0x80 == 0x80

unfoldable pub has_password : ℕ → Bool
has_password con_flags = bit_and con_flags 0x40 == 0x40

unfoldable pub retain_last_will : ℕ → Bool
retain_last_will con_flags = bit_and con_flags 0x20 == 0x20

unfoldable pub last_will_qos : ℕ → QoS
unfolding qos_of
last_will_qos con_flags = qos_of con_flags 3

unfoldable pub contains_last_will : ℕ → Bool
contains_last_will con_flags = bit_and con_flags 0x04 == 0x04

unfoldable pub clean_session : ℕ → Bool
clean_session con_flags = bit_and con_flags 0x02 == 0x02

unfoldable pub protocol_level : Connect → ProtocolLevel
protocol_level c = if c.prot_level == 0x04 then level4 else unsupported

-- The constructor of `subscription` checks its topic filter.
unfoldable pub make_subscription : Bytes → QoS → Result Subscription
make_subscription topic_filter maximum_qos =
    assert_well_formed_topic_filter topic_filter
    >> ok (record { topic_filter = topic_filter; maximum_qos = maximum_qos })

unfoldable pub make_subscribe : ℕ → ℕ → List Subscription → Subscribe
make_subscribe remaining_length packet_identifier subscriptions = record {
  header = record {
    type_and_flags = bit_or (0x08 * 2 ^ 4) 0x02;
    remaining_length = remaining_length;
  };
  packet_identifier = packet_identifier;
  subscriptions = subscriptions;
}

abbrev pub succeed_code : QoS → SubackReturnCode
succeed_code at_most_once = maximum_qos0
succeed_code at_least_once = maximum_qos1
succeed_code exactly_once = maximum_qos2
succeed_code reserved = failure

-- `subscribe::succeed` and `subscribe::fail`
unfoldable pub succeed : Subscribe → Suback
unfolding make_suback
succeed s = make_suback s.packet_identifier (map (λ t. succeed_code t.maximum_qos) s.subscriptions)

unfoldable pub fail : Subscribe → Suback
unfolding make_suback
fail s = make_suback s.packet_identifier (map (λ t. failure) s.subscriptions)

unfoldable pub make_unsubscribe : ℕ → ℕ → List Bytes → Unsubscribe
make_unsubscribe remaining_length packet_identifier topic_filters = record {
  header = record {
    type_and_flags = bit_or (0x0A * 2 ^ 4) 0x02;
    remaining_length = remaining_length;
  };
  packet_identifier = packet_identifier;
  topic_filters = topic_filters;
}

-- `unsubscribe::ack`
abbrev pub ack : Unsubscribe → PublishAck
ack u = make_unsuback u.packet_identifier
