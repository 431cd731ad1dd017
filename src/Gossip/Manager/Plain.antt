-- ===== src/Gossip/Manager/Plain.antt =====
-- An encoding in which the bytes are the message, for tests; a timestamp is the time itself.
use otel_tail_sampler.Base.{refl, Bool, true, false, some, sym, arith}
use otel_tail_sampler.Base.Int.{ℤ}
use otel_tail_sampler.Pdata.{Float64}
use otel_tail_sampler.Gossip.Wire.{Timestamps, GossipMessage, no_payload}
use otel_tail_sampler.Gossip.Manager.{GossipCodec, IsFaithful}

abbrev pub stamps : Timestamps
stamps = record { Timestamp = ℤ; new_timestamp = λ t. t; as_time = λ t. t }

abbrev is_empty : {F : Float64} → GossipMessage stamps F → Bool
is_empty no_payload = true
is_empty _ = false

abbrev pub plain : (F : Float64) → GossipCodec F
plain F = record {
  stamps = stamps;
  Bytes = GossipMessage stamps F;
  is_empty = is_empty;
  marshal = λ m. some m;
  unmarshal = λ b. some b;
}

pub plain-IsFaithful : (F : Float64) → IsFaithful (plain F)
plain-IsFaithful F = record {
  times = record { as_time-new_timestamp = λ t h. refl };
  back = λ m b h. sym h;
  decision-is_empty = λ d b h. ground arith;
  trigger-is_empty = λ t b h. ground arith;
}
