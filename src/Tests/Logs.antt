-- ===== src/Tests/Logs.antt =====
-- The theorems on the write-ahead log at a log of two signals.
use otel_tail_sampler.Base.{none, ◌≡◌, refl, some, List, [], ◌∷◌, ◌++◌, arith}
use otel_tail_sampler.Base.Int.{pos}
use otel_tail_sampler.Hex.{encode_to_string, decode_string}
use otel_tail_sampler.Hex.RoundTrip.{decode_string-encode_to_string}
use otel_tail_sampler.Pdata.Simple.{simple, tenths}
use otel_tail_sampler.Signals.{Signal, metric}
use otel_tail_sampler.Codecs.Blobs.{Blob, blobs, blobs-IsFaithful}
use otel_tail_sampler.Codecs.{trace_record, metric_record}
use otel_tail_sampler.Wal.{write, replay, truncate_before, received}
use otel_tail_sampler.Wal.Memory.{Segment, filled, memory, memory-IsLawful, entries-memory}
use otel_tail_sampler.Wal.Replay.{replay-write, without_source}
use otel_tail_sampler.Wal.Stale.{truncate_before-IsOld}
use otel_tail_sampler.Tests.Fixtures

abbrev one : Segment Blob
one = filled 0 (Blob.record_of trace_record (Blob.traces Fixtures.spans) (pos 2000000000)) []

abbrev two : Segment Blob
two =
    filled 0 (Blob.record_of trace_record (Blob.traces Fixtures.spans) (pos 2000000000))
      (Blob.record_of metric_record (Blob.metrics Fixtures.metrics) (pos 2000000000) ∷ [])

replay-write_example :
    (before : List (Signal simple tenths)) × (replay blobs (memory Blob) one ≡ some before)
    × (replay blobs (memory Blob) two
        ≡ some (before ++ without_source blobs (metric Fixtures.metric_signal) ∷ []))
unfolding write received
replay-write_example =
    replay-write blobs (memory Blob) (memory-IsLawful Blob) blobs-IsFaithful one two
      (metric Fixtures.metric_signal) refl

abbrev late : Segment Blob
late =
    filled 0 (Blob.record_of trace_record (Blob.traces Fixtures.spans) (pos 2000000000))
      (Blob.record_of metric_record (Blob.metrics Fixtures.metrics) (pos 5000000000) ∷ [])

abbrev truncated : Segment Blob
truncated =
    filled 1 (Blob.record_of metric_record (Blob.metrics Fixtures.metrics) (pos 5000000000)) []

decode_string_test : decode_string (encode_to_string (1 ∷ 171 ∷ [])) ≡ some (1 ∷ 171 ∷ [])
decode_string_test =
    decode_string-encode_to_string (1 ∷ 171 ∷ []) ((omega arith), ((omega arith), tt))

truncate_before-IsOld_example : truncate_before blobs (memory Blob) two (pos 4000000000) ≡ none
truncate_before-IsOld_example =
    truncate_before-IsOld blobs (pos 4000000000) (memory Blob) (memory-IsLawful Blob) two
      (Blob.record_of trace_record (Blob.traces Fixtures.spans) (pos 2000000000))
      (Blob.record_of metric_record (Blob.metrics Fixtures.metrics) (pos 2000000000) ∷ [])
      (entries-memory Blob two) ((_, refl, refl), ((_, refl, refl), tt))
