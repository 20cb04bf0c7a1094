-- ===== src/Examples/Files.antt =====
-- Puts into the local object store, one of which is broken off.
use rollout.Prelude.{◌≡◌, refl, true, false, [], ◌∷◌, none, some, codes}
use rollout.Core.Ids.{Bytes, content_str, hex_digit}
use rollout.Core.Errors.{ok}
use rollout.Blobs.{Stream}
use rollout.Blobs.Local.{
  FilePath, Files, PutIo, StreamIo, written, broken, put_bytes, get_bytes, get_stream, exists,
}
use rollout.Blobs.Local.Sound.{Sound}
use rollout.Blobs.Local.Integrity.{whole, streamed, run_puts, run_puts-Sound, put-get}
use rollout.Examples.Data.{plain_hash, plain_ulids}

abbrev root : FilePath
root = codes "data" ∷ []

abbrev empty : Files
empty = λ path. none

empty-Sound : Sound root empty
unfolding Sound
empty-Sound = λ id bytes e. absurd (cc)

abbrev works : PutIo
works = record {
  creates_dir = true;
  checks = true;
  writes = written;
  renames = true;
  meta = some [];
  writes_meta = written;
}

abbrev stream_works : StreamIo
stream_works = record {
  creates_pending = true;
  creates_file = true;
  writes_chunk = λ i. none;
  syncs = true;
  creates_dir = true;
  checks = true;
  removes = true;
  renames = true;
}

abbrev ab : Stream
ab = record { content = codes "ab"; ready = λ i. 0; fails = λ i. false }

-- A write that breaks off after a byte leaves no blob.
no_blob :
    exists true root
      (codes "ab")
      (put_bytes (record works { writes = broken 1 }) root (codes "ab") empty).1
    ≡ ok false
unfolding exists put_bytes content_str hex_digit
no_blob = refl

run_puts-Sound_example :
    (files : Files) × (run_puts root
        (whole (record works { writes = broken 1 }) (codes "ab")
          ∷ streamed (record stream_works { writes_chunk = λ i. some 0 }) 7 ab
          ∷ whole works (codes "ab")
          ∷ [])
        empty
      ≡ some files)
    × Sound root files
run_puts-Sound_example =
    run_puts-Sound root
      (whole (record works { writes = broken 1 }) (codes "ab")
        ∷ streamed (record stream_works { writes_chunk = λ i. some 0 }) 7 ab
        ∷ whole works (codes "ab")
        ∷ [])
      empty empty-Sound

abbrev stored : Files
stored = (put_bytes works root (codes "ab") empty).1

put-get_example :
    (codes "ab" ≡ codes "ab")
    × (exists true root (codes "ab") stored ≡ ok true)
    × ((bytes : Bytes) × (get_bytes true root (codes "ab") stored ≡ ok bytes)
        × (get_stream true root (codes "ab") stored ≡ ok bytes)
        × (bytes ≡ codes "ab"))
unfolding put_bytes content_str hex_digit
put-get_example = put-get root (whole works (codes "ab")) empty stored (codes "ab") empty-Sound refl
