-- ===== src/Server/Settings.antt =====
-- The configuration that main of cmd/server/main.go starts with: the defaults, a file, the environment.
use otel_tail_sampler.Base.{Bool, Option, none, some, [], ◌∷◌, if◌then◌else◌}
use otel_tail_sampler.Base.Text.{GoString}
use otel_tail_sampler.Config.{Config, default_config}

-- What os.Stat and os.ReadFile give for the path of the file, and os.Getenv for the two variables.
pub record Environment (B : Type 0) : Type 0 where
  pub file_exists : Bool
  pub file : Option B
  pub exporter_endpoint : GoString
  pub receiver_host : GoString

-- Every condition of the form `v != ""`.
abbrev pub or_default : GoString → GoString → GoString
or_default [] default = default
or_default (ch ∷ v) default = ch ∷ v

-- `unmarshal` is what yaml.Unmarshal leaves in the configuration, with whether it returns no error;
-- an error is only logged.
module _ {B : Type 0} (unmarshal : B → Config → Config × Bool) where
  unfoldable pub from_file : Environment B → Config → Config
  from_file env cfg =
      if env.file_exists
      then elim env.file [ none ↦ cfg | some bytes ↦ (unmarshal bytes cfg).0 ]
      else cfg

  unfoldable pub load_config : Environment B → Config
  unfolding default_config from_file
  load_config env =
      let cfg = from_file env default_config in
      record cfg {
        exporter = record cfg.exporter {
          endpoint = or_default env.exporter_endpoint cfg.exporter.endpoint;
        };
        receiver = record cfg.receiver { host = or_default env.receiver_host cfg.receiver.host };
      }
