-- ===== src/Tx.antt =====
-- source/server/io_wally/dispatch/tx_publication.cpp: a PUBLISH on its way to a client, sent again
-- until the client has acknowledged it. What a call does to the sender, to the timer and to the
-- table it stands in is the list of its effects, in order.
pub mod Log
pub mod Qos1
pub mod Qos2
pub mod Table
pub mod Sendable
pub mod Resent
use wally_io.Prelude.{
  ℕ, ◌+◌, ◌%◌, ◌^◌, List, [], ◌∷◌, Bool, true, ◌||◌, not, leb, ◌==◌, if◌then◌else◌, Result, ok, err,
  ◌>>=◌, ◌>>◌, assert,
}
use wally_io.Protocol.{at_least_once, exactly_once, PacketType, type_of, same_type}
use wally_io.Packet.{Publish, PublishAck, MqttPacket, make_pubrel}
use wally_io.Packet.PublishPacket.{set_qos, set_dup}

pub data Effect : Type 0 where
  send : MqttPacket → Effect
  start_timer cancel_timer : Effect
  release : Effect
  stop : Effect

pub data Qos1State : Type 0 where
  initial waiting_for_ack completed terminally_failed : Qos1State

pub data Qos2State : Type 0 where
  initial waiting_for_rec waiting_for_comp completed terminally_failed : Qos2State

-- The values of the enumerators.
abbrev pub qos1_value : Qos1State → ℕ
qos1_value Qos1State.initial = 0
qos1_value waiting_for_ack = 1
qos1_value Qos1State.completed = 2
qos1_value Qos1State.terminally_failed = 3

abbrev pub qos2_value : Qos2State → ℕ
qos2_value Qos2State.initial = 0
qos2_value waiting_for_rec = 1
qos2_value waiting_for_comp = 2
qos2_value Qos2State.completed = 3
qos2_value Qos2State.terminally_failed = 4

pub record TxPublication (State : Type 0) : Type 0 where
  pub publish : Publish
  pub retry_count : ℕ
  pub state : State

abbrev pub Qos1TxPublication : Type 0
Qos1TxPublication = TxPublication Qos1State

abbrev pub Qos2TxPublication : Type 0
Qos2TxPublication = TxPublication Qos2State

abbrev pub ack_type : PublishAck → PacketType
ack_type ack = type_of ack.header.type_and_flags

-- `++retry_count_` of a uint16_t.
abbrev pub next_retry : ℕ → ℕ
next_retry retry_count = (retry_count + 1) % 2 ^ 16
