-- ===== src/Gossip/Manager.antt =====
-- The manager of internal/gossip/gossip.go: two bounded channels and the queue of memberlist, which
-- keeps every broadcast since none invalidates another.
pub mod Delivery
pub mod Plain
use otel_tail_sampler.Base.{
  ℕ, ◌≡◌, Bool, true, false, Option, none, some, List, [], ◌∷◌, ◌++◌, length, ltb, if◌then◌else◌,
}
use otel_tail_sampler.Pdata.{Float64}
use otel_tail_sampler.Gossip.{SamplingDecision, TriggerEvent}
use otel_tail_sampler.Gossip.Wire.{
  Timestamps, IsTimestamps, PbSamplingDecision, PbTriggerEvent, GossipMessage, sampling_decision,
  trigger_event, no_payload, decision_to_pb, decision_from_pb, trigger_to_pb, trigger_from_pb,
}

-- timestamppb, and proto.Marshal and proto.Unmarshal of pb.GossipMessage.
pub record GossipCodec (F : Float64) : Type 1 where
  pub stamps : Timestamps
  pub Bytes : Type 0
  -- Whether the length is 0.
  pub is_empty : Bytes → Bool
  pub marshal : GossipMessage stamps F → Option Bytes
  pub unmarshal : Bytes → Option (GossipMessage stamps F)

-- What was encoded is decoded, and a message with a payload has no empty encoding.
pub record IsFaithful {F : Float64} (c : GossipCodec F) : Type 0 where
  pub times : IsTimestamps c.stamps
  pub back :
      (m : GossipMessage c.stamps F) (b : c.Bytes) → c.marshal m ≡ some b → c.unmarshal b ≡ some m
  pub decision-is_empty :
      (d : PbSamplingDecision c.stamps) (b : c.Bytes)
      → c.marshal (sampling_decision d) ≡ some b
      → c.is_empty b ≡ false
  pub trigger-is_empty :
      (t : PbTriggerEvent c.stamps F) (b : c.Bytes)
      → c.marshal (trigger_event t) ≡ some b
      → c.is_empty b ≡ false

module _ {F : Float64} (c : GossipCodec F) where
  -- What waits in the channels is the oldest first.
  pub record Manager : Type 0 where
    pub broadcasts : List c.Bytes
    pub decision_chan : List SamplingDecision
    pub trigger_chan : List (TriggerEvent F)

  -- The state of New, with the empty queue of Start.
  unfoldable pub new : Manager
  new = record { broadcasts = []; decision_chan = []; trigger_chan = [] }

-- The capacity of both channels.
abbrev pub chan_capacity : ℕ
chan_capacity = 100

-- A send with a default: a full channel drops the message.
unfoldable pub offer : {A : Type 0} → List A → A → List A
offer chan a = if ltb (length chan) chan_capacity then chan ++ a ∷ [] else chan

module _ {F : Float64} (c : GossipCodec F) where
  -- The messages that the broadcasts encode.
  abbrev pub decision_message : SamplingDecision → GossipMessage c.stamps F
  decision_message decision = sampling_decision (decision_to_pb c.stamps decision)

  abbrev pub trigger_message : TriggerEvent F → GossipMessage c.stamps F
  trigger_message trigger = trigger_event (trigger_to_pb c.stamps trigger)

  -- `none` is an error, after which nothing has changed.
  unfoldable pub broadcast_decision : Manager c → SamplingDecision → Option (Manager c)
  unfolding offer decision_to_pb
  broadcast_decision m decision = elim (c.marshal (decision_message decision)) [
    | none ↦ none
    | some bytes ↦ some (record m {
      broadcasts = m.broadcasts ++ bytes ∷ [];
      decision_chan = offer m.decision_chan decision;
    })
  ]

  unfoldable pub broadcast_trigger : Manager c → TriggerEvent F → Option (Manager c)
  unfolding offer trigger_to_pb
  broadcast_trigger m trigger = elim (c.marshal (trigger_message trigger)) [
    | none ↦ none
    | some bytes ↦ some (record m {
      broadcasts = m.broadcasts ++ bytes ∷ [];
      trigger_chan = offer m.trigger_chan trigger;
    })
  ]

  -- The switch on the payload.
  unfoldable pub deliver : Manager c → GossipMessage c.stamps F → Manager c
  unfolding offer decision_from_pb trigger_from_pb
  deliver m (sampling_decision sd) = record m {
    decision_chan = offer m.decision_chan (decision_from_pb c.stamps sd);
  }
  deliver m (trigger_event te) = record m {
    trigger_chan = offer m.trigger_chan (trigger_from_pb c.stamps te);
  }
  deliver m no_payload = m

  unfoldable pub notify_msg : Manager c → c.Bytes → Manager c
  unfolding deliver
  notify_msg m bytes =
      if c.is_empty bytes
      then m
      else elim (c.unmarshal bytes) [ none ↦ m | some msg ↦ deliver m msg ]
