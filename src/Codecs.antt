-- ===== src/Codecs.antt =====
-- The encodings that the WAL and the buffer use: the marshalers of pdata, protobuf for the records of
-- the WAL, encoding/gob for the entries of the buffer. They are a parameter, and so are the byte
-- strings, of which the source itself only tests the length.
pub mod Blobs
use otel_tail_sampler.Base.{◌≡◌, Bool, true, false, Option, some, [], ◌∷◌}
use otel_tail_sampler.Base.Int.{ℤ}
use otel_tail_sampler.Pdata.{
  Pcommon, Float64, ResourceItems, Span, LogRecord, Traces, Metrics, Logs,
}

-- pb.WALRecord_Type; `unknown` is any other value of the enumeration.
pub data RecordType : Type 0 where
  trace_record metric_record log_record unknown : RecordType

-- pb.WALRecord
pub record WalRecord (B : Type 0) : Type 0 where
  pub kind : RecordType
  pub payload : B
  pub timestamp : ℤ

-- StoredTraceData of internal/buffer/buffer.go
pub record StoredTraceData (B : Type 0) : Type 0 where
  pub received_at : ℤ
  pub traces_data : B
  pub logs_data : B

pub record Codecs (P : Pcommon) (F : Float64) : Type 1 where
  pub Bytes : Type 0
  pub nil : Bytes
  -- Whether the length is 0.
  pub is_empty : Bytes → Bool
  pub marshal_traces : Traces P → Option Bytes
  pub unmarshal_traces : Bytes → Option (Traces P)
  pub marshal_metrics : Metrics P F → Option Bytes
  pub unmarshal_metrics : Bytes → Option (Metrics P F)
  pub marshal_logs : Logs P → Option Bytes
  pub unmarshal_logs : Bytes → Option (Logs P)
  pub marshal_record : WalRecord Bytes → Option Bytes
  pub unmarshal_record : Bytes → Option (WalRecord Bytes)
  pub gob_encode : StoredTraceData Bytes → Bytes
  pub gob_decode : Bytes → Option (StoredTraceData Bytes)

-- What was encoded is decoded, and only a message with nothing in it has an empty encoding.
pub record IsFaithful {P : Pcommon} {F : Float64} (c : Codecs P F) : Type 0 where
  pub traces :
      (t : Traces P) (b : c.Bytes) → c.marshal_traces t ≡ some b → c.unmarshal_traces b ≡ some t
  pub metrics :
      (m : Metrics P F) (b : c.Bytes)
      → c.marshal_metrics m ≡ some b
      → c.unmarshal_metrics b ≡ some m
  pub logs : (l : Logs P) (b : c.Bytes) → c.marshal_logs l ≡ some b → c.unmarshal_logs b ≡ some l
  pub records :
      (r : WalRecord c.Bytes) (b : c.Bytes)
      → c.marshal_record r ≡ some b
      → c.unmarshal_record b ≡ some r
  pub stored : (s : StoredTraceData c.Bytes) → c.gob_decode (c.gob_encode s) ≡ some s
  pub nil-is_empty : c.is_empty c.nil ≡ true
  pub traces-is_empty :
      (r : ResourceItems P (Span P)) (t : Traces P) (b : c.Bytes)
      → c.marshal_traces (r ∷ t) ≡ some b
      → c.is_empty b ≡ false
  pub logs-is_empty :
      (r : ResourceItems P (LogRecord P)) (l : Logs P) (b : c.Bytes)
      → c.marshal_logs (r ∷ l) ≡ some b
      → c.is_empty b ≡ false
