-- ===== src/Startup.antt =====
-- cmd/jotfs/main.go: the flags, their validation, and how the server is put together. What flag.Parse
-- sets is a value of `Flags`; the listening itself and the ticker of the vacuum are not modelled.
pub mod Machine
pub mod Params
pub mod Bounds
pub mod Logs
pub mod Reads
pub mod Durable
pub mod Settled
pub mod Restart
use jotfs.Prelude.{
  ℕ, ◌*◌, ◌/◌, ◌%◌, ◌^◌, Bool, true, false, not, ◌&&◌, ◌||◌, List, [], ◌∷◌, ltb, if◌then◌else◌,
}
use jotfs.Errors.{Result, ok, err, message, ◌>>◌}
use jotfs.Bytes.{Bytes}
use jotfs.Sum.{sum_eq}
use jotfs.Server.World.{Config}

abbrev pub default_port : ℕ
default_port = 6_777

-- "warn"
abbrev pub warn_text : Bytes
warn_text = 119 ∷ 97 ∷ 114 ∷ 110 ∷ []

abbrev pub debug_text : Bytes
debug_text = 100 ∷ 101 ∷ 98 ∷ 117 ∷ 103 ∷ []

abbrev pub info_text : Bytes
info_text = 105 ∷ 110 ∷ 102 ∷ 111 ∷ []

abbrev pub error_text : Bytes
error_text = 101 ∷ 114 ∷ 114 ∷ 111 ∷ 114 ∷ []

-- "./jotfs.db"
abbrev pub default_database : Bytes
default_database = 46 ∷ 47 ∷ 106 ∷ 111 ∷ 116 ∷ 102 ∷ 115 ∷ 46 ∷ 100 ∷ 98 ∷ []

abbrev pub kib : ℕ
kib = 1_024

abbrev pub max_packfile_size : ℕ
max_packfile_size = 134_217_728

abbrev pub min_vacuum_schedule_minutes : ℕ
min_vacuum_schedule_minutes = 5

abbrev pub min_avg_kib : ℕ
min_avg_kib = 64

abbrev pub max_avg_kib : ℕ
max_avg_kib = 65_536

abbrev pub default_normalization : ℕ
default_normalization = 2

pub record ServerConfig : Type 0 where
  pub port : ℕ
  pub database : Bytes
  pub versioning_enabled : Bool
  pub avg_chunk_kib : ℕ
  pub log_level : Bytes
  pub tls_cert : Bytes
  pub tls_key : Bytes
  pub dl_timeout_minutes : ℕ
  pub vacuum_schedule_minutes : ℕ
  pub disable_auto_vacuum : Bool

pub record StoreConfig : Type 0 where
  pub access_key : Bytes
  pub secret_key : Bytes
  pub bucket : Bytes
  pub region : Bytes
  pub disable_ssl : Bool
  pub path_style : Bool
  pub endpoint : Bytes

-- The variables that flag.Parse sets
pub record Flags : Type 0 where
  pub server : ServerConfig
  pub store : StoreConfig
  pub debug : Bool
  pub version : Bool

-- The flags of an empty command line
abbrev pub default_server_config : ServerConfig
default_server_config = record {
  port = default_port;
  database = default_database;
  versioning_enabled = false;
  avg_chunk_kib = 512;
  log_level = warn_text;
  tls_cert = [];
  tls_key = [];
  dl_timeout_minutes = 120;
  vacuum_schedule_minutes = 180;
  disable_auto_vacuum = false;
}

abbrev pub default_store_config : StoreConfig
default_store_config = record {
  access_key = [];
  secret_key = [];
  bucket = [];
  region = [];
  disable_ssl = false;
  path_style = false;
  endpoint = [];
}

abbrev pub is_empty : Bytes → Bool
is_empty [] = true
is_empty (b ∷ bs) = false

abbrev pub is_log_level : Bytes → Bool
is_log_level s =
    is_empty s
    || sum_eq s debug_text
    || sum_eq s info_text
    || sum_eq s warn_text
    || sum_eq s error_text

-- `serverConfig.validate`
unfoldable pub validate : ServerConfig → Result (Unit {0})
validate c =
    if ltb c.avg_chunk_kib min_avg_kib || ltb max_avg_kib c.avg_chunk_kib
    then err (message "-chunk_size must be in range 64 to 65536")
    else if (is_empty c.tls_cert && not (is_empty c.tls_key))
        || (not (is_empty c.tls_cert) && is_empty c.tls_key)
    then err (message "flags -ssl_cert and -ssl_key must be provided together")
    else if not c.disable_auto_vacuum && ltb c.vacuum_schedule_minutes min_vacuum_schedule_minutes
    then err (message "flag -vacuum_schedule must be at least 5")
    else if is_log_level c.log_level
    then ok tt
    else err (message "invalid -log_level. Must be one of: debug, info, warn, error")

-- `storeConfig.validate`
unfoldable pub validate_store : StoreConfig → Result (Unit {0})
validate_store c =
    if is_empty c.bucket then err (message "flag -store_bucket is reqiured") else ok tt

-- `ChunkerParams`
pub record ChunkerParams : Type 0 where
  pub min_chunk_size : ℕ
  pub avg_chunk_size : ℕ
  pub max_chunk_size : ℕ
  pub normalization : ℕ

-- A `uint` has 32 or 64 bits.
pub data UintSize : Type 0 where
  bits_32 bits_64 : UintSize

abbrev pub modulus : UintSize → ℕ
modulus bits_32 = 4_294_967_296
modulus bits_64 = 18_446_744_073_709_551_616

-- The parameters of a new store
unfoldable pub chunker_params : UintSize → ServerConfig → ChunkerParams
chunker_params w c =
    let avg = (c.avg_chunk_kib * kib) % modulus w in
    record {
      min_chunk_size = avg / 4;
      avg_chunk_size = avg;
      max_chunk_size = (avg * 4) % modulus w;
      normalization = default_normalization;
    }

-- `server.Config`, as `run` fills it
pub record Settings : Type 0 where
  pub bucket : Bytes
  pub config : Config
  pub max_chunk_size : ℕ
  pub params : ChunkerParams

unfoldable pub settings : Flags → ChunkerParams → Settings
settings f p = record {
  bucket = f.store.bucket;
  config = record {
    versioning_enabled = f.server.versioning_enabled;
    max_packfile_size = max_packfile_size;
    download_timeout = (60_000_000_000 * f.server.dl_timeout_minutes) % 2 ^ 64;
  };
  max_chunk_size = p.max_chunk_size;
  params = p;
}
