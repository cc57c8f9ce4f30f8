-- ===== src/Keys/Ordering.antt =====
-- The order in which a scan of a key space meets its records.
use taquba.Base.{ℕ, ◌^◌, ◌<◌, ◌≡◌, refl, ap, ◌∙◌, true, [], ◌∷◌, ◌++◌, arith, ltb, ◌==◌, ◌&&◌, ◌||◌}
use taquba.Bytes.{Bytes, bytes_lt}
use taquba.Bytes.BigEndian.{bytes_lt-be_bytes}
use taquba.Keys.{KeyTag, header, push_queue, pending_key, time_first_key}

bytes_lt-prefix : (xs ys zs : Bytes) → bytes_lt (xs ++ ys) (xs ++ zs) ≡ bytes_lt ys zs
unfolding bytes_lt
bytes_lt-prefix [] ys zs = refl
bytes_lt-prefix (x ∷ xs) ys zs = ground (arith, bytes_lt-prefix xs ys zs)

-- Within one queue the pending keys are ordered by priority, then by enqueue time, then by id, for
-- priorities of 32 bits and times of 64 bits.
pub pending_key_order :
    (queue : Bytes) (p q t u : ℕ) (i j : Bytes)
    → p < 2 ^ 32
    → q < 2 ^ 32
    → t < 2 ^ 64
    → u < 2 ^ 64
    → bytes_lt (pending_key queue p t i) (pending_key queue q u j)
      ≡ (ltb p q || (p == q && (ltb t u || (t == u && bytes_lt i j))))
unfolding pending_key
pending_key_order queue p q t u i j hp hq ht hu =
    bytes_lt-prefix (header KeyTag.pending ++ push_queue queue) _ _
    ∙ bytes_lt-be_bytes 4 p q _ _ hp hq
    ∙ ap (λ b. ltb p q || (p == q && b)) (bytes_lt-be_bytes 8 t u i j ht hu)

-- The keys of a time-first key space are ordered by time first, for times of 64 bits.
pub time_first_key_order :
    (tag : KeyTag) (t u : ℕ) (queue queue' i j : Bytes)
    → t < 2 ^ 64
    → u < 2 ^ 64
    → t < u
    → bytes_lt (time_first_key tag t queue i) (time_first_key tag u queue' j) ≡ true
unfolding time_first_key
time_first_key_order tag t u queue queue' i j ht hu h =
    bytes_lt-prefix (header tag) _ _
    ∙ bytes_lt-be_bytes 8 t u (push_queue queue ++ i) (push_queue queue' ++ j) ht hu
    ∙ ground arith
