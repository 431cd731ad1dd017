-- ===== src/Wal.antt =====
-- internal/wal/manager.go: the write-ahead log. The segmented log (tidwall/wal) and the
-- encodings are parameters; an error is `none`. The mutex makes each method one step.
pub mod Laws
pub mod Replay
pub mod Truncate
pub mod Stale
pub mod Memory
pub mod Contract
use otel_tail_sampler.Base.{
  ◌>>=◌, ℕ, zero, suc, ◌+◌, ◌-◌, ◌<◌, ◌≡◌, Bool, Option, none, some, List, [], ◌∷◌, ltb,
  if◌then◌else◌,
}
use otel_tail_sampler.Base.Int.{ℤ, ltb_ℤ}
use otel_tail_sampler.Pdata.{Pcommon, Float64}
use otel_tail_sampler.Codecs.{
  RecordType, trace_record, metric_record, log_record, unknown, WalRecord, Codecs,
}
use otel_tail_sampler.Signals.{Context, Signal, trace, metric, log}

-- The methods of wal.Log of github.com/tidwall/wal.
pub record WalStore (B : Type 0) : Type 1 where
  pub State : Type 0
  pub first_index : State → Option ℕ
  pub last_index : State → Option ℕ
  pub read : State → ℕ → Option B
  pub write : State → ℕ → B → Option State
  pub truncate_front : State → ℕ → Option State

-- The context that Replay gives a signal.
abbrev pub replayed_ctx : ℤ → Context
replayed_ctx t = record { received_at = t; source_addr = [] }

module _ {P : Pcommon} {F : Float64} where
  unfoldable pub received : Signal P F → ℤ
  received (trace s) = s.ctx.received_at
  received (metric s) = s.ctx.received_at
  received (log s) = s.ctx.received_at

module _ {P : Pcommon} {F : Float64} (c : Codecs P F) where
  -- The switch on the signal's type.
  abbrev pub encode_payload : Signal P F → Option (RecordType × c.Bytes)
  encode_payload (trace s) = do payload ← c.marshal_traces s.traces; some (trace_record, payload)
  encode_payload (metric s) = do
    payload ← c.marshal_metrics s.metrics
    some (metric_record, payload)
  encode_payload (log s) = do payload ← c.marshal_logs s.logs; some (log_record, payload)

  unfoldable pub encode : Signal P F → Option c.Bytes
  encode sig = do
    (kind, payload) ← encode_payload sig
    c.marshal_record (record { kind = kind; payload = payload; timestamp = received sig })

  abbrev pub decode_record : RecordType → c.Bytes → ℤ → Option (Signal P F)
  decode_record trace_record payload t = do
    traces ← c.unmarshal_traces payload
    some (trace (record { traces = traces; ctx = replayed_ctx t }))
  decode_record metric_record payload t = do
    metrics ← c.unmarshal_metrics payload
    some (metric (record { metrics = metrics; ctx = replayed_ctx t }))
  decode_record log_record payload t = do
    logs ← c.unmarshal_logs payload
    some (log (record { logs = logs; ctx = replayed_ctx t }))
  decode_record unknown payload t = none

  -- What the body of the loop of Replay makes of an entry; `none` is an entry that it passes over.
  unfoldable pub decode : c.Bytes → Option (Signal P F)
  decode entry = do r ← c.unmarshal_record entry; decode_record r.kind r.payload r.timestamp

  module _ (W : WalStore c.Bytes) where
    unfoldable pub write : W.State → Signal P F → Option W.State
    unfolding encode
    write s sig = do
      record_bytes ← encode sig
      last ← W.last_index s
      W.write s (last + 1) record_bytes

    -- The signals that Replay passes to its function, in order.
    unfoldable pub replay_loop : ℕ → ℕ → W.State → List (Signal P F)
    unfolding decode
    replay_loop zero i s = []
    replay_loop (suc n) i s =
        let rest = replay_loop n (suc i) s in
        elim (W.read s i >>= decode) [ none ↦ rest | some sig ↦ sig ∷ rest ]

    unfoldable pub replay : W.State → Option (List (Signal P F))
    unfolding replay_loop
    replay s = do
      first ← W.first_index s
      last ← W.last_index s
      some (replay_loop (last + 1 - first) first s)

    -- The scan of TruncateBefore: the index of the last entry before `t` that it passes.
    unfoldable pub truncate_loop : ℕ → ℕ → ℕ → W.State → ℤ → ℕ
    truncate_loop zero i truncate_index s t = truncate_index
    truncate_loop (suc n) i truncate_index s t = elim (W.read s i >>= c.unmarshal_record) [
      | none ↦ truncate_loop n (suc i) truncate_index s t
      | some r ↦
          let rest = truncate_loop n (suc i) i s t in
          if ltb_ℤ r.timestamp t then rest else truncate_index
    ]

    unfoldable pub truncate_before : W.State → ℤ → Option W.State
    unfolding truncate_loop
    truncate_before s t = do
      first ← W.first_index s
      last ← W.last_index s
      let truncate_index = truncate_loop (last + 1 - first) first 0 s t
      if ltb 0 truncate_index then W.truncate_front s (truncate_index + 1) else some s
