-- ===== src/Contracts/Types.antt =====
-- The contract of a service, as test-harness/pkg/contracts/types.go declares it. `V` stands for the
-- values of a message format, which are any YAML.
use Prim.Native.String.{String}
use linux_application_develo.Shared.{Bool, List}
use linux_application_develo.Shared.Dict.{Dict}
use linux_application_develo.Shared.Float.{Float64}
use linux_application_develo.Shared.Int.{ℤ}

-- SignalHandler
pub record SignalHandler : Type 0 where
  pub behavior : String
  pub timeout_seconds : ℤ
  pub expected_exit_code : ℤ
  pub expected_log_message : String
  pub expected_action : String

-- SignalConfig
pub record SignalConfig : Type 0 where
  pub sigterm : SignalHandler
  pub sighup : SignalHandler
  pub sigusr1 : SignalHandler
  pub sigusr2 : SignalHandler

-- POSIXMQConfig
pub record PosixMqConfig (V : Type 0) : Type 0 where
  pub queue_name : String
  pub message_format : Dict V

-- DirectoryConfig
pub record DirectoryConfig : Type 0 where
  pub path : String
  pub events : List String

-- FilesystemConfig
pub record FilesystemConfig : Type 0 where
  pub watch_directory : DirectoryConfig
  pub processed_directory : DirectoryConfig
  pub error_directory : DirectoryConfig

-- DatabaseConfig
pub record DatabaseConfig : Type 0 where
  pub driver : String
  pub tables_written : List String
  pub tables_read : List String
  pub wal_mode : String
  pub isolation : String
  pub read_only : Bool

-- TCPConfig
pub record TcpConfig : Type 0 where
  pub bind_address : String
  pub port : ℤ
  pub protocol : String

-- UDPBroadcastConfig
pub record UdpBroadcastConfig : Type 0 where
  pub enabled : Bool
  pub port : ℤ
  pub interval_seconds : ℤ

-- UDPConfig
pub record UdpConfig : Type 0 where
  pub broadcast : UdpBroadcastConfig

-- NetworkConfig
pub record NetworkConfig : Type 0 where
  pub tcp : TcpConfig
  pub udp : UdpConfig

-- Interfaces
pub record Interfaces (V : Type 0) : Type 0 where
  pub signals : SignalConfig
  pub posix_mq : PosixMqConfig V
  pub filesystem : FilesystemConfig
  pub database : DatabaseConfig
  pub network : NetworkConfig

module _ (f : Float64) where
  -- MetricConfig
  pub record MetricConfig : Type 0 where
    pub target : f.F
    pub minimum : f.F
    pub maximum : f.F

  -- Performance
  pub record Performance : Type 0 where
    pub throughput_mbps : MetricConfig
    pub latency_first_record_seconds : MetricConfig
    pub memory_max_mb : MetricConfig
    pub query_latency_ms : MetricConfig
    pub concurrent_connections : MetricConfig

  -- Contract
  pub record Contract (V : Type 0) : Type 0 where
    pub service : String
    pub version : String
    pub description : String
    pub interfaces : Interfaces V
    pub performance : Performance
    pub requirements : List String
