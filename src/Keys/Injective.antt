-- ===== src/Keys/Injective.antt =====
-- A key determines the id, and the key spaces of job records and of the index are apart.
use taquba.Base.{ℕ, ◌<◌, ◌≡◌, refl, sym, ◌∙◌, [], ◌∷◌, ◌++◌, arith, length}
use taquba.Bytes.{Bytes, be_bytes}
use taquba.Bytes.BigEndian.{length-be_bytes}
use taquba.Keys.{KeyTag, push_queue, pending_key, time_first_key, queue_first_key}

pub append_cancel :
    (xs ys a b : Bytes) → length xs ≡ length ys → xs ++ a ≡ ys ++ b → (xs ≡ ys) × (a ≡ b)
append_cancel [] [] a b l e = (refl, e)
append_cancel [] (y ∷ ys) a b l e = absurd (omega arith)
append_cancel (x ∷ xs) [] a b l e = absurd (omega arith)
append_cancel (x ∷ xs) (y ∷ ys) a b l e =
    let (p, q) = append_cancel xs ys a b (omega arith) (cc) in (cc, q)

-- A queue name of at most 255 bytes ends where its length byte says.
queue_cancel :
    (q r a b : Bytes)
    → length q < 256
    → length r < 256
    → push_queue q ++ a ≡ push_queue r ++ b
    → (q ≡ r) × (a ≡ b)
queue_cancel q r a b hq hr e = append_cancel q r a b (ground arith) (cc)

be_bytes_cancel : (w m n : ℕ) (a b : Bytes) → be_bytes w m ++ a ≡ be_bytes w n ++ b → a ≡ b
be_bytes_cancel w m n a b e =
    (append_cancel (be_bytes w m) (be_bytes w n) a b
      (length-be_bytes w m ∙ sym (length-be_bytes w n)) e).1

pub queue_first_key-injective :
    (tag : KeyTag) (q r i j : Bytes)
    → length q < 256
    → length r < 256
    → queue_first_key tag q i ≡ queue_first_key tag r j
    → (q ≡ r) × (i ≡ j)
unfolding queue_first_key
queue_first_key-injective tag q r i j hq hr e = queue_cancel q r i j hq hr (cc)

pub time_first_key-injective :
    (tag : KeyTag) (m n : ℕ) (q r i j : Bytes)
    → length q < 256
    → length r < 256
    → time_first_key tag m q i ≡ time_first_key tag n r j
    → (q ≡ r) × (i ≡ j)
unfolding time_first_key
time_first_key-injective tag m n q r i j hq hr e =
    queue_cancel q r i j hq hr (be_bytes_cancel 8 m n (push_queue q ++ i) (push_queue r ++ j) (cc))

pub pending_key-injective :
    (q r : Bytes) (m n t u : ℕ) (i j : Bytes)
    → length q < 256
    → length r < 256
    → pending_key q m t i ≡ pending_key r n u j
    → (q ≡ r) × (i ≡ j)
unfolding pending_key
pending_key-injective q r m n t u i j hq hr e =
    let (p, f) =
      queue_cancel q r (be_bytes 4 m ++ (be_bytes 8 t ++ i)) (be_bytes 4 n ++ (be_bytes 8 u ++ j))
        hq hr (cc) in
    (p, be_bytes_cancel 8 t u i j (be_bytes_cancel 4 m n (be_bytes 8 t ++ i) (be_bytes 8 u ++ j) f))
