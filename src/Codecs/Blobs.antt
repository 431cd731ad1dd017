-- ===== src/Codecs/Blobs.antt =====
-- An encoding in which a byte string is what it encodes, for tests.
use otel_tail_sampler.Base.{◌≡◌, refl, Bool, true, false, Option, none, some, [], ◌∷◌, arith}
use otel_tail_sampler.Base.Int.{ℤ}
use otel_tail_sampler.Pdata.{Traces, Metrics, Logs}
use otel_tail_sampler.Pdata.Simple.{simple, tenths}
use otel_tail_sampler.Codecs.{RecordType, WalRecord, StoredTraceData, Codecs, IsFaithful}

pub data Blob : Type 0 where
  nothing : Blob
  traces : Traces simple → Blob
  metrics : Metrics simple tenths → Blob
  logs : Logs simple → Blob
  record_of : RecordType → Blob → ℤ → Blob
  stored : ℤ → Blob → Blob → Blob

abbrev is_empty : Blob → Bool
is_empty nothing = true
is_empty _ = false

abbrev marshal_traces : Traces simple → Option Blob
marshal_traces [] = some nothing
marshal_traces (r ∷ t) = some (traces (r ∷ t))

abbrev unmarshal_traces : Blob → Option (Traces simple)
unmarshal_traces nothing = some []
unmarshal_traces (traces t) = some t
unmarshal_traces _ = none

abbrev marshal_logs : Logs simple → Option Blob
marshal_logs [] = some nothing
marshal_logs (r ∷ l) = some (logs (r ∷ l))

abbrev unmarshal_logs : Blob → Option (Logs simple)
unmarshal_logs nothing = some []
unmarshal_logs (logs l) = some l
unmarshal_logs _ = none

abbrev unmarshal_metrics : Blob → Option (Metrics simple tenths)
unmarshal_metrics (metrics m) = some m
unmarshal_metrics _ = none

abbrev unmarshal_record : Blob → Option (WalRecord Blob)
unmarshal_record (record_of k p t) = some (record { kind = k; payload = p; timestamp = t })
unmarshal_record _ = none

abbrev gob_decode : Blob → Option (StoredTraceData Blob)
gob_decode (stored r t l) = some (record { received_at = r; traces_data = t; logs_data = l })
gob_decode _ = none

abbrev pub blobs : Codecs simple tenths
blobs = record {
  Bytes = Blob;
  nil = nothing;
  is_empty = is_empty;
  marshal_traces = marshal_traces;
  unmarshal_traces = unmarshal_traces;
  marshal_metrics = λ m. some (metrics m);
  unmarshal_metrics = unmarshal_metrics;
  marshal_logs = marshal_logs;
  unmarshal_logs = unmarshal_logs;
  marshal_record = λ r. some (record_of r.kind r.payload r.timestamp);
  unmarshal_record = unmarshal_record;
  gob_encode = λ s. stored s.received_at s.traces_data s.logs_data;
  gob_decode = gob_decode;
}

faithful_traces :
    (t : Traces simple) (b : Blob) → marshal_traces t ≡ some b → unmarshal_traces b ≡ some t
faithful_traces [] b h = ground arith
faithful_traces (r ∷ t) b h = ground arith

faithful_logs : (l : Logs simple) (b : Blob) → marshal_logs l ≡ some b → unmarshal_logs b ≡ some l
faithful_logs [] b h = ground arith
faithful_logs (r ∷ l) b h = ground arith

pub blobs-IsFaithful : IsFaithful blobs
blobs-IsFaithful = record {
  traces = faithful_traces;
  metrics = λ m b h. ground arith;
  logs = faithful_logs;
  records = λ r b h. ground arith;
  stored = λ s. refl;
  nil-is_empty = refl;
  traces-is_empty = λ r t b h. ground arith;
  logs-is_empty = λ r l b h. ground arith;
}
