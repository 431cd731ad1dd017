-- ===== src/Config.antt =====
-- internal/config/config.go: the configuration and its defaults.
use otel_tail_sampler.Base.{Bool, true, false, List, [], ◌∷◌}
use otel_tail_sampler.Base.Int.{ℤ, pos, negsuc}
use otel_tail_sampler.Base.Text.{GoString, codes}

pub record ReceiverConfig : Type 0 where
  pub grpc_port : ℤ
  pub http_port : ℤ
  pub host : GoString

pub record BufferConfig : Type 0 where
  pub size : ℤ
  pub ttl_seconds : ℤ
  pub max_traces : ℤ

pub record DiscoveryConfig : Type 0 where
  pub kind : GoString
  pub service_name : GoString
  pub peers : List GoString

pub record GossipConfig : Type 0 where
  pub port : ℤ
  pub bind_addr : GoString
  pub interval : ℤ

-- `kind` is the field Type. The field SampleRate is read by nothing.
pub record PolicyConfig : Type 0 where
  pub name : GoString
  pub kind : GoString
  pub latency_threshold_ms : ℤ
  pub attribute_key : GoString
  pub attribute_value : GoString

pub record DecisionConfig : Type 0 where
  pub policies : List PolicyConfig

pub record RollupConfig : Type 0 where
  pub enabled : Bool

pub record ExporterConfig : Type 0 where
  pub endpoint : GoString
  pub insecure : Bool

pub record Config : Type 0 where
  pub debug : Bool
  pub receiver : ReceiverConfig
  pub buffer : BufferConfig
  pub discovery : DiscoveryConfig
  pub gossip : GossipConfig
  pub decision : DecisionConfig
  pub rollup : RollupConfig
  pub exporter : ExporterConfig

abbrev pub sample_all : PolicyConfig
sample_all = record {
  name = codes "sample-all";
  kind = codes "latency";
  latency_threshold_ms = negsuc 0;
  attribute_key = [];
  attribute_value = [];
}

unfoldable pub default_config : Config
default_config = record {
  debug = true;
  receiver = record { grpc_port = pos 4317; http_port = pos 4318; host = codes "0.0.0.0" };
  buffer = record { size = pos 512; ttl_seconds = pos 30; max_traces = pos 5000 };
  discovery = record { kind = codes "static"; service_name = []; peers = [] };
  gossip = record { port = pos 7946; bind_addr = codes "0.0.0.0"; interval = pos 100 };
  decision = record { policies = sample_all ∷ [] };
  rollup = record { enabled = true };
  exporter = record { endpoint = []; insecure = false };
}
