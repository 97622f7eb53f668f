-- ===== src/Event.antt =====
-- include/mimic.h: the kinds of event, the transports and domains, and the event record.
-- `int` and `long int` fields are integers.
use mimic_generator.Common.Int.{ℤ, pos, negsuc}

pub data EventType : Type 0 where
  accept accepted connect connected close recv recvd wait send sent : EventType
  srv_start srv_started srv_end no_type : EventType

pub data TransportType : Type 0 where
  tcp udp : TransportType

pub data DomainType : Type 0 where
  ipv4 ipv6 : DomainType

pub record Event : Type 0 where
  pub sockfd : ℤ
  pub ms_from_start : ℤ
  pub ms_from_last_event : ℤ
  pub type : EventType
  pub conn_id : ℤ
  pub event_id : ℤ
  pub value : ℤ

-- An event with the values of its member initialisers.
abbrev pub new_event : Event
new_event = record {
  sockfd = negsuc 0;
  ms_from_start = pos 1;
  ms_from_last_event = negsuc 0;
  type = no_type;
  conn_id = negsuc 0;
  event_id = negsuc 0;
  value = pos 0;
}
