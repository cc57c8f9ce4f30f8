-- ===== src/Keys/Tests.antt =====
-- The keys of concrete jobs.
use taquba.Base.{◌≡◌, [], ◌∷◌, none, some, arith, ltb, ◌==◌, ◌&&◌, ◌||◌, if◌then◌else◌}
use taquba.Bytes.{Bytes, bytes_lt}
use taquba.Keys.{KeyTag, id, pending_key, time_first_key, parse_key_timestamp}
use taquba.Keys.Ordering.{pending_key_order}
use taquba.Keys.Decoding.{parse_key_timestamp-time_first_key}

abbrev q : Bytes
q = b'q' ∷ []

abbrev r : Bytes
r = b'r' ∷ []

pending_key_order_example :
    bytes_lt (pending_key q 1 300 r) (pending_key q 1 50 q)
    ≡ (ltb 1 1 || (1 == 1 && (ltb 300 50 || (300 == 50 && bytes_lt r q))))
pending_key_order_example =
    pending_key_order q 1 1 300 50 r q (ground arith) (ground arith) (ground arith) (ground arith)

parse_key_timestamp-time_first_key_example :
    parse_key_timestamp (time_first_key KeyTag.done 300 q r) KeyTag.done
    ≡ (if id KeyTag.done == id KeyTag.done then some 300 else none)
parse_key_timestamp-time_first_key_example =
    parse_key_timestamp-time_first_key KeyTag.done KeyTag.done 300 q r (ground arith)
