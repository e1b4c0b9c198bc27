-- ===== src/Tests/Startups.antt =====
-- Starts of the program on one bucket.
use jotfs.Prelude.{
  ◌≡◌, ◌≤◌, ◌↔◌, ◌*◌, refl, sym, subst, false, none, some, [], ◌∷◌, length, replicate,
  length-replicate,
}
use jotfs.Errors.{Result, ok, err, message}
use jotfs.Bytes.{Bytes}
use jotfs.Sum.{sum_eq}
use jotfs.Compress.{plain}
use jotfs.Object.Packfile.{append, new_packfile_builder}
use jotfs.Server.World.{pack_key}
use jotfs.Step.{◌>>=◌, lift, pure}
use jotfs.Startup.{
  ChunkerParams, Flags, bits_32, bits_64, chunker_params, default_server_config,
  default_store_config, kib, max_packfile_size, settings, validate, validate_store,
}
use jotfs.Startup.Machine.{Json, Machine, file_exists, open_db, read_params, regular}
use jotfs.Startup.Params.{
  chunk_params_key, get_chunker_params, got_params, is_store_not_found, load_params, or_new,
  connect, put_params, save_chunker_params, set_up, start, with_context,
}
use jotfs.Startup.Bounds.{chunker_params_lem}
use jotfs.Startup.Durable.{
  IsOther, pack_key-IsOther, Later, now, after, other_put, other_deleted, started,
}
use jotfs.Startup.Restart.{start-start}
use jotfs.Tests.Data.{marking, stored, sum_a}
use jotfs.Tests.Buckets.{Shelves, shelves, shelves-IsDurable}

accepted : validate default_server_config ≡ ok tt
unfolding sum_eq validate
accepted = refl

abbrev largest : Bytes
largest = replicate (chunker_params bits_32 default_server_config).max_chunk_size 7

chunker_params_lem_example :
    ((chunker_params bits_32 default_server_config).avg_chunk_size ≡ 512 * kib)
    × ((chunker_params bits_32 default_server_config).min_chunk_size * 4 ≡ 512 * kib)
    × ((chunker_params bits_32 default_server_config).max_chunk_size ≡ 512 * kib * 4)
    × (16 * kib ≤ (chunker_params bits_32 default_server_config).min_chunk_size)
    × (length (append marking new_packfile_builder largest sum_a plain).1.w.written
          ≤ max_packfile_size
        ↔ 512 ≤ 32_767)
chunker_params_lem_example =
    chunker_params_lem bits_32 default_server_config marking largest sum_a accepted refl
      (length-replicate (chunker_params bits_32 default_server_config).max_chunk_size 7)

abbrev four_numbers : Bytes → Result ChunkerParams
four_numbers (a ∷ b ∷ c ∷ d ∷ bs) =
    ok (record { min_chunk_size = a; avg_chunk_size = b; max_chunk_size = c; normalization = d })
four_numbers _ = err (message "json")

decoded :
    (p : ChunkerParams) (b : Bytes)
    → ok (p.min_chunk_size ∷ p.avg_chunk_size ∷ p.max_chunk_size ∷ p.normalization ∷ []) ≡ ok b
    → four_numbers b ≡ ok p
decoded p b e =
    let same : (p.min_chunk_size ∷ p.avg_chunk_size ∷ p.max_chunk_size ∷ p.normalization ∷ []) ≡ b =
      cc e in
    subst (λ r. four_numbers r ≡ ok p) same refl

abbrev numbers : Json
numbers = record {
  encode = λ p. ok (p.min_chunk_size ∷ p.avg_chunk_size ∷ p.max_chunk_size ∷ p.normalization ∷ []);
  decode = four_numbers;
  decode-encode = decoded;
}

abbrev machine : Machine Shelves
machine = record {
  stat = λ f. regular;
  open_sqlite = λ f. ok tt;
  ping = λ f. ok tt;
  stored = λ f. stored;
  init_schema = λ f. err (message "exists");
  new_store = λ c. ok shelves;
}

abbrev flags : Flags
flags = record {
  server = default_server_config;
  store = record default_store_config { bucket = 98 ∷ [] };
  debug = false;
  version = false;
}

-- The same with larger chunks
abbrev other_flags : Flags
other_flags = record flags { server = record default_server_config { avg_chunk_kib = 1_024 } }

abbrev params : ChunkerParams
params = record {
  min_chunk_size = 131_072;
  avg_chunk_size = 524_288;
  max_chunk_size = 2_097_152;
  normalization = 2;
}

abbrev saved : Shelves
saved = (98 ∷ [], chunk_params_key, some (131_072 ∷ 524_288 ∷ 2_097_152 ∷ 2 ∷ [])) ∷ []

first_start :
    start numbers machine bits_64 flags [] ≡ (ok (some (stored, settings flags params)), saved)
unfolding sum_eq start connect set_up ◌>>=◌ lift pure validate validate_store open_db file_exists
    load_params with_context get_chunker_params got_params is_store_not_found or_new
    save_chunker_params put_params chunker_params
first_start = refl

-- A packfile is put and deleted, and the program starts on the bucket.
abbrev served : Shelves
served = (98 ∷ [], pack_key sum_a, none) ∷ (98 ∷ [], pack_key sum_a, some (1 ∷ [])) ∷ saved

middle_start : (start numbers machine bits_32 other_flags served).1 ≡ served
unfolding sum_eq start connect set_up ◌>>=◌ lift pure validate validate_store open_db file_exists
    load_params with_context get_chunker_params got_params read_params or_new jotfs.Sum.Hex.as_hex
middle_start = refl

is_other : IsOther (98 ∷ []) (98 ∷ []) (pack_key sum_a)
is_other = pack_key-IsOther (98 ∷ []) (98 ∷ []) sum_a refl

served-Later : Later shelves (98 ∷ []) numbers saved served
served-Later = after (other_put (98 ∷ []) (pack_key sum_a) (1 ∷ []) saved is_other) (
    after (other_deleted (98 ∷ []) (pack_key sum_a) _ is_other) (
      after (started machine bits_32 other_flags served refl refl)
        (subst (λ t. Later shelves (98 ∷ []) numbers t served) (sym middle_start) now)))

last_start :
    start numbers machine bits_64 other_flags served
    ≡ (ok (some (stored, settings other_flags params)), served)
unfolding sum_eq start connect set_up ◌>>=◌ lift pure validate validate_store open_db file_exists
    load_params with_context get_chunker_params got_params read_params or_new jotfs.Sum.Hex.as_hex
last_start = refl

start-start_example : (settings other_flags params).params ≡ (settings flags params).params
start-start_example =
    start-start shelves (98 ∷ []) numbers shelves-IsDurable machine machine bits_64 bits_64 flags
      other_flags [] saved served served stored stored (settings flags params)
      (settings other_flags params) refl refl first_start served-Later refl refl last_start
