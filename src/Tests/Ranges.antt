-- ===== src/Tests/Ranges.antt =====
-- A presigned range.
use jotfs.Prelude.{◌≡◌, refl, Option, some, none, [], ◌∷◌}
use jotfs.Errors.{ok}
use jotfs.Bytes.{Bytes}
use jotfs.S3.{Sdk, done, presign_get_url, range_text, digits, decimal}

abbrev url : Bytes → Option Bytes → Bytes
url key none = key
url key (some r) = r

-- A service whose URLs are the ranges
abbrev echo : Sdk (Unit {0})
echo = record {
  upload = λ b k x o. (done tt, o);
  cancelled_upload = λ b k x o. o;
  get_object = λ b k o. (done (record { contents = ok []; closed = ok tt }), o);
  copy_object = λ b from to o. (done tt, o);
  delete_object = λ b k o. (done tt, o);
  presign = λ b k range expires o. (done (url k range), o);
}

-- "bytes=120-4095"
asked :
    (presign_get_url echo [] [] 60 (some (120, 4_095)) tt).0
    ≡ ok (98 ∷ 121 ∷ 116 ∷ 101 ∷ 115 ∷ 61 ∷ 49 ∷ 50 ∷ 48 ∷ 45 ∷ 52 ∷ 48 ∷ 57 ∷ 53 ∷ [])
unfolding presign_get_url range_text decimal digits
asked = refl
