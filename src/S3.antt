-- ===== src/S3.antt =====
-- internal/store/s3/s3.go: the object store over the AWS SDK, which is a parameter.
pub mod Range
use jotfs.Prelude.{
  ℕ, zero, suc, ◌+◌, ◌/◌, ◌%◌, Bool, Option, none, some, List, [], ◌∷◌, ◌++◌, ltb, if◌then◌else◌,
}
use jotfs.Errors.{Error, Result, ok, err, store_not_found, ◌>>=◌}
use jotfs.Step.{Step}
use jotfs.Bytes.{Bytes}
use jotfs.Sum.{sum_eq}
use jotfs.Server.Names.{path_clean}
use jotfs.Server.World.{Client, Object}
use jotfs.Startup.{StoreConfig, is_empty}

-- What a call of the SDK returns: an `awserr.Error` has a code.
pub data Outcome (A : Type 0) : Type 0 where
  done : A → Outcome A
  aws_failed : Bytes → Error → Outcome A
  failed : Error → Outcome A

-- The calls of the SDK on some state of objects, in a session: the bucket, the key and what else they
-- take
pub record Sdk (O : Type 0) : Type 0 where
  pub upload : Bytes → Bytes → Bytes → O → Outcome (Unit {0}) × O
  -- what an upload leaves where its context is cancelled
  pub cancelled_upload : Bytes → Bytes → Bytes → O → O
  pub get_object : Bytes → Bytes → O → Outcome Object × O
  pub copy_object : Bytes → Bytes → Bytes → O → Outcome (Unit {0}) × O
  pub delete_object : Bytes → Bytes → O → Outcome (Unit {0}) × O
  -- the range, and the duration that the URL holds for
  pub presign : Bytes → Bytes → Option Bytes → ℕ → O → Outcome Bytes × O

-- `aws.Config`, as `New` fills it; without credentials the shared ones are used.
pub record AwsConfig : Type 0 where
  pub endpoint : Bytes
  pub path_style : Bool
  pub disable_ssl : Bool
  pub region : Bytes
  pub credentials : Option (Bytes × Bytes)

unfoldable pub aws_config : StoreConfig → AwsConfig
aws_config c = record {
  endpoint = c.endpoint;
  path_style = c.path_style;
  disable_ssl = c.disable_ssl;
  region = c.region;
  credentials = if is_empty c.access_key then none else some (c.access_key, c.secret_key);
}

-- "NoSuchKey"
abbrev pub no_such_key : Bytes
no_such_key = 78 ∷ 111 ∷ 83 ∷ 117 ∷ 99 ∷ 104 ∷ 75 ∷ 101 ∷ 121 ∷ []

abbrev pub result_of : {A : Type 0} → Outcome A → Result A
result_of (done a) = ok a
result_of (aws_failed code e) = err e
result_of (failed e) = err e

-- The result of `Get`
unfoldable pub get_result : Outcome Object → Result Object
get_result (done r) = ok r
get_result (aws_failed code e) = if sum_eq code no_such_key then err store_not_found else err e
get_result (failed e) = err e

-- The digits of `%d`, the last first; one round for each of them, and at most `n + 1` of them
unfoldable pub digits : ℕ → ℕ → Bytes → Bytes
digits zero n acc = acc
digits (suc k) n acc =
    if ltb n 10 then (48 + n) ∷ acc else digits k (n / 10) ((48 + (n % 10)) ∷ acc)

unfoldable pub decimal : ℕ → Bytes
decimal n = digits (n + 1) n []

-- "bytes=%d-%d"
unfoldable pub range_text : ℕ → ℕ → Bytes
range_text from to = 98 ∷ 121 ∷ 116 ∷ 101 ∷ 115 ∷ 61 ∷ (decimal from ++ (45 ∷ decimal to))

module _ {O : Type 0} (sdk : Sdk O) (bucket : Bytes) where
  -- `Put`
  unfoldable pub put : Bytes → Bytes → Step O (Unit {0})
  put key b o = let (r, o') = sdk.upload bucket key b o in (result_of r, o')

  -- `Get`
  unfoldable pub get : Bytes → Step O Object
  get key o = let (r, o') = sdk.get_object bucket key o in (get_result r, o')

  -- `Copy`
  unfoldable pub copy : Bytes → Bytes → Step O (Unit {0})
  copy from to o =
      let (r, o') = sdk.copy_object bucket (path_clean (bucket ++ (47 ∷ from))) to o in
      (result_of r, o')

  -- `Delete`
  unfoldable pub delete : Bytes → Step O (Unit {0})
  delete key o = let (r, o') = sdk.delete_object bucket key o in (result_of r, o')

  -- `PresignGetURL`
  unfoldable pub presign_get_url : Bytes → ℕ → Option (ℕ × ℕ) → Step O Bytes
  presign_get_url key expires none o =
      let (r, o') = sdk.presign bucket key none expires o in (result_of r, o')
  presign_get_url key expires (some (from, to)) o =
      let (r, o') = sdk.presign bucket key (some (range_text from to)) expires o in
      (result_of r, o')

-- The store of the program
abbrev pub s3_client : {O : Type 0} → Sdk O → Client O
s3_client sdk = record {
  put = put sdk;
  cancelled_put = sdk.cancelled_upload;
  get = get sdk;
  copy = copy sdk;
  delete = delete sdk;
  presign_get_url = presign_get_url sdk;
}

-- `New`, given the sessions of the SDK
unfoldable pub new_client :
    {O : Type 0} → (AwsConfig → Result (Sdk O)) → StoreConfig → Result (Client O)
new_client new_session c = do sdk ← new_session (aws_config c); ok (s3_client sdk)
