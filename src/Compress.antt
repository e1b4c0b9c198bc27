-- ===== src/Compress.antt =====
-- internal/compress/compress.go: the modes, and zstd as a parameter.
use jotfs.Prelude.{ℕ, ◌≡◌, arith, leb, ◌==◌, if◌then◌else◌}
use jotfs.Errors.{Result, ok, err, message}
use jotfs.Bytes.{Bytes}

-- `Mode` is a uint8 in the source; only these two values are made, so `panic` is not reached.
pub data Mode : Type 0 where
  zstd plain : Mode

-- `AsUint8`
unfoldable pub as_uint8 : Mode → ℕ
as_uint8 zstd = 0
as_uint8 plain = 1

-- `FromUint8`
unfoldable pub from_uint8 : ℕ → Result Mode
from_uint8 v =
    if leb v 1
    then ok (if v == 0 then zstd else plain)
    else err (message "invalid compression mode")

-- What the program relies on of the zstd package: a stream that was compressed decompresses to
-- what it was.
pub record Zstd : Type 0 where
  pub deflate : Bytes → Result Bytes
  pub inflate : Bytes → Result Bytes
  pub inflate-deflate : (src c : Bytes) → deflate src ≡ ok c → inflate c ≡ ok src

module _ (z : Zstd) where
  -- `Compress`
  unfoldable pub compress : Mode → Bytes → Result Bytes
  compress plain src = ok src
  compress zstd src = z.deflate src

  -- `DecompressStream`: what is written to `dst`, which does not fail.
  unfoldable pub decompress : Mode → Bytes → Result Bytes
  decompress plain src = ok src
  decompress zstd src = z.inflate src

  -- In either mode, a chunk that was compressed without an error decompresses to what it was.
  pub decompress-compress :
      (m : Mode) (src c : Bytes) → compress m src ≡ ok c → decompress m c ≡ ok src
  unfolding compress decompress
  decompress-compress plain src c h = ground arith
  decompress-compress zstd src c h = z.inflate-deflate src c h

pub from_uint8-as_uint8 : (m : Mode) → from_uint8 (as_uint8 m) ≡ ok m
unfolding from_uint8 as_uint8
from_uint8-as_uint8 m = ground arith
