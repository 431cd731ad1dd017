-- ===== src/Gossip/Manager/Delivery.antt =====
-- What internal/gossip/gossip.go delivers to the channels of this node and of its peers.
use otel_tail_sampler.Base.{◌≡◌, refl, sym, ap, some, [], ◌∷◌, ◌++◌, inl, inr, Option-cases}
use mathlib.Core.Option.{some-injective}
use otel_tail_sampler.Pdata.{Float64}
use otel_tail_sampler.Gossip.{SamplingDecision, TriggerEvent}
use otel_tail_sampler.Gossip.Wire.{
  Timestamps, IsTimestamps, IsStamped, decision_to_pb, decision_from_pb, trigger_to_pb,
  trigger_from_pb,
}
use otel_tail_sampler.Gossip.Manager

module _ {T : Timestamps} (times : IsTimestamps T) where
  decision_from_pb-decision_to_pb :
      (d : SamplingDecision)
      → IsStamped d.decided_at
      → IsStamped d.event_start
      → IsStamped d.event_end
      → decision_from_pb T (decision_to_pb T d) ≡ d
  unfolding decision_to_pb decision_from_pb
  decision_from_pb-decision_to_pb d decided start end =
      simp
        (
          times.as_time-new_timestamp d.decided_at decided,
          times.as_time-new_timestamp d.event_start start,
          times.as_time-new_timestamp d.event_end end,
        )
        refl

  trigger_from_pb-trigger_to_pb :
      {F : Float64} (t : TriggerEvent F)
      → IsStamped t.started_at
      → trigger_from_pb T (trigger_to_pb T t) ≡ t
  unfolding trigger_to_pb trigger_from_pb
  trigger_from_pb-trigger_to_pb t started =
      simp (times.as_time-new_timestamp t.started_at started) refl

module _ {F : Float64} (c : Manager.GossipCodec F) (H : Manager.IsFaithful c) where
  -- A decision that is broadcast is offered to the channel of this node, and the message of its fields
  -- is queued; each node that receives the message rebuilds from it a decision with the same trace,
  -- reason, origin and times, if these lie between the years 1 and 9999, offers it to its channel and
  -- changes nothing else.
  pub notify_msg-broadcast_decision :
      (m m' peer : Manager.Manager c) (d : SamplingDecision)
      → IsStamped d.decided_at
      → IsStamped d.event_start
      → IsStamped d.event_end
      → Manager.broadcast_decision c m d ≡ some m'
      → (bytes : c.Bytes) × (m'.broadcasts ≡ m.broadcasts ++ bytes ∷ [])
        × (m'.decision_chan ≡ Manager.offer m.decision_chan d)
        × (m'.trigger_chan ≡ m.trigger_chan)
        × (Manager.notify_msg c peer bytes
            ≡ record peer { decision_chan = Manager.offer peer.decision_chan d })
  unfolding Manager.broadcast_decision Manager.notify_msg Manager.deliver
  notify_msg-broadcast_decision m m' peer d decided start end h =
      elim (Option-cases (c.marshal (Manager.decision_message c d))) [
        | inl fails ↦ let e = rw (fails, Manager.broadcast_decision) at h in cc
        | inr (bytes, done) ↦
            let e = some-injective _ _ (rw (done, Manager.broadcast_decision) at h) in
            let same = decision_from_pb-decision_to_pb H.times d decided start end in
            (
              bytes,
              ap (λ (x : Manager.Manager c). x.broadcasts) (sym e),
              ap (λ (x : Manager.Manager c). x.decision_chan) (sym e),
              ap (λ (x : Manager.Manager c). x.trigger_chan) (sym e),
              rw
                  (
                    H.decision-is_empty (decision_to_pb c.stamps d) bytes done,
                    Manager.notify_msg,
                    H.back (Manager.decision_message c d) bytes done,
                  )
                  (ap (λ x. record peer { decision_chan = Manager.offer peer.decision_chan x })
                    same),
            )
      ]

  -- A trigger that is broadcast is offered to the channel of this node, and its message is queued; each
  -- node that receives the message offers the same trigger to its channel, if its time lies between the
  -- years 1 and 9999, and changes nothing else.
  pub notify_msg-broadcast_trigger :
      (m m' peer : Manager.Manager c) (t : TriggerEvent F)
      → IsStamped t.started_at
      → Manager.broadcast_trigger c m t ≡ some m'
      → (bytes : c.Bytes) × (m'.broadcasts ≡ m.broadcasts ++ bytes ∷ [])
        × (m'.trigger_chan ≡ Manager.offer m.trigger_chan t)
        × (m'.decision_chan ≡ m.decision_chan)
        × (Manager.notify_msg c peer bytes
            ≡ record peer { trigger_chan = Manager.offer peer.trigger_chan t })
  unfolding Manager.broadcast_trigger Manager.notify_msg Manager.deliver
  notify_msg-broadcast_trigger m m' peer t started h =
      elim (Option-cases (c.marshal (Manager.trigger_message c t))) [
        | inl fails ↦ let e = rw (fails, Manager.broadcast_trigger) at h in cc
        | inr (bytes, done) ↦
            let e = some-injective _ _ (rw (done, Manager.broadcast_trigger) at h) in
            let same = trigger_from_pb-trigger_to_pb H.times t started in
            (
              bytes,
              ap (λ (x : Manager.Manager c). x.broadcasts) (sym e),
              ap (λ (x : Manager.Manager c). x.trigger_chan) (sym e),
              ap (λ (x : Manager.Manager c). x.decision_chan) (sym e),
              rw
                  (
                    H.trigger-is_empty (trigger_to_pb c.stamps t) bytes done,
                    Manager.notify_msg,
                    H.back (Manager.trigger_message c t) bytes done,
                  )
                  (ap (λ x. record peer { trigger_chan = Manager.offer peer.trigger_chan x }) same),
            )
      ]
