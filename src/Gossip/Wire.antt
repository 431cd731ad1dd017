-- ===== src/Gossip/Wire.antt =====
-- The messages of api/proto/gossip.proto, and how internal/gossip/gossip.go converts to and from them.
-- timestamppb is a parameter.
use otel_tail_sampler.Base.{◌≡◌}
use otel_tail_sampler.Base.Int.{ℤ, pos, negsuc, ◌≤ℤ◌, ◌<ℤ◌}
use otel_tail_sampler.Base.Text.{GoString}
use otel_tail_sampler.Pdata.{Float64}
use otel_tail_sampler.Gossip.{SamplingDecision, TriggerEvent}

-- *timestamppb.Timestamp with New and AsTime.
pub record Timestamps : Type 1 where
  pub Timestamp : Type 0
  pub new_timestamp : ℤ → Timestamp
  pub as_time : Timestamp → ℤ

-- From the year 1 up to the end of the year 9999, the range of a Timestamp.
abbrev pub IsStamped : ℤ → Type 0
IsStamped t = (negsuc 62135596799999999999 ≤ℤ t) × (t <ℤ pos 253402300800000000000)

pub record IsTimestamps (T : Timestamps) : Type 0 where
  pub as_time-new_timestamp : (t : ℤ) → IsStamped t → T.as_time (T.new_timestamp t) ≡ t

module _ (T : Timestamps) where
  pub record PbSamplingDecision : Type 0 where
    pub trace_id : GoString
    pub reason : GoString
    pub decided_at : T.Timestamp
    pub decided_by : GoString
    pub event_start : T.Timestamp
    pub event_end : T.Timestamp

  pub record PbTriggerEvent (F : Float64) : Type 0 where
    pub name : GoString
    pub value : F.Double
    pub threshold : F.Double
    pub started_at : T.Timestamp

  -- The oneof of the payload; `no_payload` is any other message.
  pub data GossipMessage (F : Float64) : Type 0 where
    sampling_decision : PbSamplingDecision → GossipMessage F
    trigger_event : PbTriggerEvent F → GossipMessage F
    no_payload : GossipMessage F

  -- The conversion of BroadcastDecision.
  unfoldable pub decision_to_pb : SamplingDecision → PbSamplingDecision
  decision_to_pb decision = record {
    trace_id = decision.trace_id;
    reason = decision.reason;
    decided_at = T.new_timestamp decision.decided_at;
    decided_by = decision.decided_by;
    event_start = T.new_timestamp decision.event_start;
    event_end = T.new_timestamp decision.event_end;
  }

  -- That of NotifyMsg.
  unfoldable pub decision_from_pb : PbSamplingDecision → SamplingDecision
  decision_from_pb sd = record {
    trace_id = sd.trace_id;
    reason = sd.reason;
    decided_at = T.as_time sd.decided_at;
    decided_by = sd.decided_by;
    event_start = T.as_time sd.event_start;
    event_end = T.as_time sd.event_end;
  }

  module _ {F : Float64} where
    -- The conversion of BroadcastTrigger.
    unfoldable pub trigger_to_pb : TriggerEvent F → PbTriggerEvent F
    trigger_to_pb trigger = record {
      name = trigger.name;
      value = trigger.value;
      threshold = trigger.threshold;
      started_at = T.new_timestamp trigger.started_at;
    }

    -- That of NotifyMsg.
    unfoldable pub trigger_from_pb : PbTriggerEvent F → TriggerEvent F
    trigger_from_pb te = record {
      name = te.name;
      value = te.value;
      threshold = te.threshold;
      started_at = T.as_time te.started_at;
    }
