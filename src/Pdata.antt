-- ===== src/Pdata.antt =====
-- The OTLP data that the source reads through go.opentelemetry.io/collector/pdata. The behaviour of
-- that library (attribute maps, attribute values) and of `float64` is a parameter; the messages
-- themselves are records with the fields that the source reads.
pub mod Simple
use otel_tail_sampler.Base.{ℕ, ◌≡◌, Bool, Option, none, some, List, [], ◌∷◌, ◌++◌, if◌then◌else◌}
use otel_tail_sampler.Base.Int.{ℤ, IsInt64}
use otel_tail_sampler.Base.Text.{GoString, eqb}

-- pcommon.Map and pcommon.Value, and what is never looked into: the data of other metric types.
pub record Pcommon : Type 1 where
  pub Value : Type 0
  pub Map : Type 0
  pub Opaque : Type 0
  pub empty : Map
  -- The pairs in the order in which Range visits them.
  pub range : Map → List (GoString × Value)
  pub get : Map → GoString → Option Value
  -- PutBool, PutInt, and CopyTo into the value that PutEmpty returns.
  pub put : Map → GoString → Value → Map
  pub remove : Map → GoString → Map
  pub as_string : Value → GoString
  pub str : Value → GoString
  pub int : Value → ℤ
  pub of_bool : Bool → Value
  pub of_int : ℤ → Value

-- What is documented of them, for maps whose keys are unique.
pub record IsLawful (P : Pcommon) : Type 0 where
  pub range-empty : P.range P.empty ≡ []
  pub range-put :
      (m : P.Map) (k : GoString) (v : P.Value)
      → P.get m k ≡ none
      → P.range (P.put m k v) ≡ P.range m ++ (k, v) ∷ []
  pub get-empty : (k : GoString) → P.get P.empty k ≡ none
  pub get-put :
      (m : P.Map) (k j : GoString) (v : P.Value)
      → P.get (P.put m k v) j ≡ (if eqb k j then some v else P.get m j)
  pub get-remove :
      (m : P.Map) (k j : GoString) → P.get (P.remove m k) j ≡ (if eqb k j then none else P.get m j)
  pub int-of_int : (z : ℤ) → IsInt64 z → P.int (P.of_int z) ≡ z

-- `float64` with the operations that the source uses.
pub record Float64 : Type 1 where
  pub Double : Type 0
  pub zero : Double
  pub add : Double → Double → Double
  pub mul : Double → Double → Double
  pub less : Double → Double → Bool
  pub of_int : ℤ → Double
  -- The constant 0.8.
  pub four_fifths : Double

pub record Resource (P : Pcommon) : Type 0 where
  pub attributes : P.Map

pub record Scope (P : Pcommon) : Type 0 where
  pub name : GoString
  pub version : GoString
  pub attributes : P.Map

-- ScopeSpans, ScopeMetrics, ScopeLogs; ResourceSpans, ResourceMetrics, ResourceLogs.
pub record ScopeItems (P : Pcommon) (A : Type 0) : Type 0 where
  pub scope : Scope P
  pub items : List A

pub record ResourceItems (P : Pcommon) (A : Type 0) : Type 0 where
  pub resource : Resource P
  pub scopes : List (ScopeItems P A)

pub data StatusCode : Type 0 where
  unset ok error : StatusCode

-- Timestamps are `uint64` nanoseconds, a trace ID is 16 bytes.
pub record Span (P : Pcommon) : Type 0 where
  pub trace_id : List ℕ
  pub start_timestamp : ℕ
  pub end_timestamp : ℕ
  pub status : StatusCode
  pub attributes : P.Map

pub record LogRecord (P : Pcommon) : Type 0 where
  pub trace_id : List ℕ
  pub severity_number : ℤ
  pub body : P.Value
  pub attributes : P.Map

pub data NumberValue (F : Float64) : Type 0 where
  empty : NumberValue F
  int : ℤ → NumberValue F
  double : F.Double → NumberValue F

pub record NumberDataPoint (P : Pcommon) (F : Float64) : Type 0 where
  pub attributes : P.Map
  pub value : NumberValue F

pub data MetricData (P : Pcommon) (F : Float64) : Type 0 where
  empty : MetricData P F
  gauge : List (NumberDataPoint P F) → MetricData P F
  -- IsMonotonic, AggregationTemporality, DataPoints.
  sum : Bool → ℕ → List (NumberDataPoint P F) → MetricData P F
  other : P.Opaque → MetricData P F

pub record Metric (P : Pcommon) (F : Float64) : Type 0 where
  pub name : GoString
  pub description : GoString
  pub unit : GoString
  pub content : MetricData P F

abbrev pub Traces : Pcommon → Type 0
Traces P = List (ResourceItems P (Span P))

abbrev pub Logs : Pcommon → Type 0
Logs P = List (ResourceItems P (LogRecord P))

abbrev pub Metrics : Pcommon → Float64 → Type 0
Metrics P F = List (ResourceItems P (Metric P F))
