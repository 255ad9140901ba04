-- ===== src/Serial/Ring.antt =====
-- The ring of hd_serial.c holds the last 4095 bytes that were written, oldest first.
use htkis_hyper_disk.Base.{
  ℕ, zero, suc, ◌+◌, ◌-◌, ◌%◌, ◌<◌, ◌≡◌, refl, ap, ◌∙◌, List, [], ◌∷◌, ◌++◌, arith, length, set,
  get_or, drop, length-set, get_or-set_self, get_or-set_ne,
}
use htkis_hyper_disk.Serial.{Serial, buf_size, ring_put, reset}

pub record IsValid (s : Serial) : Type 0 where
  pub storage : length s.ring_buffer ≡ buf_size
  pub head_in : s.ring_head < buf_size
  pub tail_in : s.ring_tail < buf_size

-- how many bytes the ring holds
abbrev pub fill : Serial → ℕ
fill s = (s.ring_head + buf_size - s.ring_tail) % buf_size

-- `n` bytes read at the positions `p`, `p + 1`, ... taken round the ring
unfoldable pub bytes_from : List ℕ → ℕ → ℕ → List ℕ
bytes_from ring p zero = []
bytes_from ring p (suc n) = get_or ring (p % buf_size) 0 ∷ bytes_from ring (p + 1) n

unfoldable pub contents : Serial → List ℕ
unfolding bytes_from
contents s = bytes_from s.ring_buffer s.ring_tail (fill s)

-- the last 4095 elements
unfoldable pub recent : List ℕ → List ℕ
recent log = drop (length log - 4095) log

pub length-bytes_from : (ring : List ℕ) (p n : ℕ) → length (bytes_from ring p n) ≡ n
unfolding bytes_from
length-bytes_from ring p zero = refl
length-bytes_from ring p (suc n) = ap suc (length-bytes_from ring (p + 1) n)

pub bytes_from-mod :
    (ring : List ℕ) (p q n : ℕ)
    → p % buf_size ≡ q % buf_size
    → bytes_from ring p n ≡ bytes_from ring q n
unfolding bytes_from
bytes_from-mod ring p q zero e = refl
bytes_from-mod ring p q (suc n) e = rw (e, bytes_from-mod ring (p + 1) (q + 1) n (omega arith))

-- Writing just behind a run of bytes appends to it.
pub bytes_from-set :
    (ring : List ℕ) (p i x n : ℕ)
    → length ring ≡ buf_size
    → n < buf_size
    → i ≡ (p + n) % buf_size
    → bytes_from (set ring i x) p (suc n) ≡ bytes_from ring p n ++ (x ∷ [])
unfolding bytes_from
bytes_from-set ring p i x zero hl hn e =
    ap (λ b. b ∷ [])
      (ap (λ k. get_or (set ring i x) k 0) (omega arith) ∙ get_or-set_self ring i x 0 (omega arith))
bytes_from-set ring p i x (suc n) hl hn e =
    rw (get_or-set_ne ring i (p % buf_size) x 0 (omega arith)) (
      ap (λ t. get_or ring (p % buf_size) 0 ∷ t)
        (bytes_from-set ring (p + 1) i x n hl (omega arith) (omega arith)))

pub ring_put-IsValid : {s : Serial} (ch : ℕ) → IsValid s → IsValid (ring_put s ch)
unfolding ring_put
ring_put-IsValid {s} ch v = ground (arith, length-set s.ring_buffer s.ring_head ch)

pub reset-IsValid : (s : Serial) → length s.ring_buffer ≡ buf_size → IsValid (reset s)
unfolding reset
reset-IsValid s h = ground arith

pub contents-reset : (s : Serial) → contents (reset s) ≡ []
unfolding reset contents bytes_from
contents-reset s = refl
