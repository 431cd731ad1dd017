-- ===== src/Gossip.antt =====
-- internal/gossip/messages.go: what the nodes tell one another. The child is
-- internal/gossip/gossip.go.
pub mod Wire
pub mod Manager
pub mod Membership
use otel_tail_sampler.Base.Int.{ℤ}
use otel_tail_sampler.Base.Text.{GoString}
use otel_tail_sampler.Pdata.{Float64}

pub record SamplingDecision : Type 0 where
  pub trace_id : GoString
  pub reason : GoString
  pub decided_at : ℤ
  pub decided_by : GoString
  pub event_start : ℤ
  pub event_end : ℤ

pub record TriggerEvent (F : Float64) : Type 0 where
  pub name : GoString
  pub value : F.Double
  pub threshold : F.Double
  pub started_at : ℤ
