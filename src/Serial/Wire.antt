-- ===== src/Serial/Wire.antt =====
-- What hd_serial.c puts on the COM1 port: one byte with a timeout, and the dump of the ring.
use htkis_hyper_disk.Base.{
  ℕ, zero, suc, ◌+◌, ◌-◌, ◌%◌, ◌<◌, ◌≡◌, refl, ap, ◌∙◌, List, [], ◌∷◌, ◌++◌, arith, get_or, true,
  false, ==_iff, some, sym, ◌⊎◌, inl, inr, Bool-cases,
}
use mathlib.Core.Path.{subst}
use native.Mathlib.Decide.{dec_lt}
use native.Mathlib.Nat.{mod-eq_of_lt}
use htkis_hyper_disk.Serial.{
  Serial, Port, buf_size, transmit_empty, byte_timeout, wait_empty, write_byte, dump_from,
  dump_ring_buffer,
}
use htkis_hyper_disk.Serial.Ring.{IsValid, fill, bytes_from, contents, bytes_from-mod}

shift : (k j : ℕ) → suc k + j ≡ k + suc j
shift k j = omega arith

module _ (lsr : ℕ → ℕ) where
  wait_empty_ready :
      (t k i : ℕ)
      → i < t
      → ((j : ℕ) → j < i → transmit_empty (lsr (k + j)) ≡ false)
      → transmit_empty (lsr (k + i)) ≡ true
      → wait_empty lsr t k ≡ (t - i, k + i + 1)
  unfolding wait_empty
  wait_empty_ready zero k i h before now = absurd (omega arith)
  wait_empty_ready (suc t) k zero h before now = ground (arith, now)
  wait_empty_ready (suc t) k (suc i) h before now = ground (
    arith,
    before 0,
    wait_empty_ready t (suc k) i (omega arith)
        (λ j hj. ap (λ x. transmit_empty (lsr x)) (shift k j) ∙ before (suc j) (omega arith))
        (ap (λ x. transmit_empty (lsr x)) (shift k i) ∙ now),
  )

  wait_empty_never :
      (t k : ℕ)
      → ((j : ℕ) → j < t → transmit_empty (lsr (k + j)) ≡ false)
      → wait_empty lsr t k ≡ (0, k + t + 1)
  unfolding wait_empty
  wait_empty_never zero k never = ground arith
  wait_empty_never (suc t) k never = ground (
    arith,
    never 0,
    wait_empty_never t (suc k)
        (λ j hj. ap (λ x. transmit_empty (lsr x)) (shift k j) ∙ never (suc j) (omega arith)),
  )

  -- If the transmitter is first seen empty at the i-th read after the first, i below the timeout of
  -- 100000, the byte is written to the port once, after i + 1 reads.
  pub write_byte-sent :
      (base : ℕ) (p : Port) (byte i : ℕ)
      → i < byte_timeout
      → ((j : ℕ) → j < i → transmit_empty (lsr (p.reads + j)) ≡ false)
      → transmit_empty (lsr (p.reads + i)) ≡ true
      → write_byte lsr base p byte
        ≡ record { reads = p.reads + i + 1; writes = p.writes ++ ((base, byte) ∷ []) }
  unfolding write_byte
  write_byte-sent base p byte i h before now =
      ground (arith, wait_empty_ready byte_timeout p.reads i h before now)

  -- If the transmitter is not seen empty in 100000 reads, the byte is dropped: nothing is written, and
  -- the status register was read 100001 times.
  pub write_byte-dropped :
      (base : ℕ) (p : Port) (byte : ℕ)
      → ((j : ℕ) → j < byte_timeout → transmit_empty (lsr (p.reads + j)) ≡ false)
      → write_byte lsr base p byte ≡ record p { reads = p.reads + 100001 }
  unfolding write_byte
  write_byte-dropped base p byte never = ground (arith, wait_empty_never byte_timeout p.reads never)

  -- sending bytes one after the other
  pub send : ℕ → Port → List ℕ → Port
  send base p [] = p
  send base p (b ∷ bs) = send base (write_byte lsr base p b) bs

  dump_from_lem :
      (f n : ℕ) (s : Serial) (tail : ℕ) (p : Port)
      → IsValid s
      → tail < buf_size
      → n ≡ (s.ring_head + buf_size - tail) % buf_size
      → n < f
      → dump_from lsr f s tail s.ring_head p
        ≡ some (send s.com_base p (bytes_from s.ring_buffer tail n))
  unfolding dump_from send bytes_from
  dump_from_lem zero n s tail p v ht e h = absurd (omega arith)
  dump_from_lem (suc f) zero s tail p v ht e h = rw ((==_iff tail s.ring_head).1 (omega arith))
  dump_from_lem (suc f) (suc n) s tail p v ht e h = ground (
    arith,
    dump_from_lem f n s ((tail + 1) % buf_size)
        (write_byte lsr s.com_base p (get_or s.ring_buffer tail 0)) v (omega arith) (omega arith)
        (omega arith),
    bytes_from-mod s.ring_buffer ((tail + 1) % buf_size) (tail + 1) n (omega arith),
    ap (λ i. get_or s.ring_buffer i 0) (mod-eq_of_lt ht),
  )

  -- The port `q` is what `p` becomes when bytes are sent to the address `base`. For each byte the line
  -- status is read until it says that the transmitter is empty. If it does so in the first 100000
  -- reads, the byte is written to the port once; else the byte is lost, after one more read.
  pub data Sends (base : ℕ) : Port → List ℕ → Port → Type 0 where
    done : {p : Port} → Sends base p [] p
    sent :
        {p q : Port} {b : ℕ} {bs : List ℕ} (i : ℕ)
        → i < 100000
        → ((j : ℕ) → j < i → transmit_empty (lsr (p.reads + j)) ≡ false)
        → transmit_empty (lsr (p.reads + i)) ≡ true
        → Sends base
            (record { reads = p.reads + i + 1; writes = p.writes ++ ((base, b) ∷ []) })
            bs
            q
        → Sends base p (b ∷ bs) q
    lost :
        {p q : Port} {b : ℕ} {bs : List ℕ}
        → ((j : ℕ) → j < 100000 → transmit_empty (lsr (p.reads + j)) ≡ false)
        → Sends base (record p { reads = p.reads + 100001 }) bs q
        → Sends base p (b ∷ bs) q

  -- The transmitter is seen empty first at one of the n reads from the k-th on, or at none.
  first_ready :
      (n k : ℕ)
      → ((i : ℕ) × (i < n)
          × ((j : ℕ) → j < i → transmit_empty (lsr (k + j)) ≡ false)
          × (transmit_empty (lsr (k + i)) ≡ true))
        ⊎ ((j : ℕ) → j < n → transmit_empty (lsr (k + j)) ≡ false)
  first_ready zero k = inr (λ j h. absurd (omega arith))
  first_ready (suc n) k = elim (first_ready n k) [
    | inl (i, lt, before, now) ↦ inl (i, omega (arith, lt), before, now)
    | inr never ↦ elim (Bool-cases (transmit_empty (lsr (k + n)))) [
      | inl now ↦ inl (n, omega arith, never, now)
      | inr not_now ↦ inr (λ j h. elim (dec_lt j n) [
        | yes lt ↦ never j lt
        | no ge ↦
            let same : n ≡ j = omega arith in
            ap (λ i. transmit_empty (lsr (k + i))) (sym same) ∙ not_now
      ])
    ]
  ]

  send-Sends : (base : ℕ) (p : Port) (bs : List ℕ) → Sends base p bs (send base p bs)
  unfolding send
  send-Sends base p [] = done
  send-Sends base p (b ∷ bs) = elim (first_ready byte_timeout p.reads) [
    | inl (i, lt, before, now) ↦ sent i lt before now (
        subst (λ x. Sends base x bs (send base (write_byte lsr base p b) bs))
          (write_byte-sent base p b i lt before now) (send-Sends base (write_byte lsr base p b) bs))
    | inr never ↦ lost never (
        subst (λ x. Sends base x bs (send base (write_byte lsr base p b) bs))
          (write_byte-dropped base p b never) (send-Sends base (write_byte lsr base p b) bs))
  ]

  dump_ring_buffer-contents :
      (s : Serial) (p : Port)
      → s.initialized ≡ true
      → IsValid s
      → dump_ring_buffer lsr buf_size s p ≡ some (send s.com_base p (contents s))
  unfolding dump_ring_buffer contents
  dump_ring_buffer-contents s p on v =
      simp on (dump_from_lem buf_size (fill s) s s.ring_tail p v v.tail_in refl (omega arith))

  -- With fuel for the 4095 bytes that a ring can hold, the dump of an initialised port with a valid
  -- ring ends. It takes exactly the bytes that the ring holds, oldest first, each of which is written to
  -- the port once if the line status shows the transmitter empty in 100000 reads, and is lost if not.
  pub dump_ring_buffer-Sends :
      (s : Serial) (p : Port)
      → s.initialized ≡ true
      → IsValid s
      → (q : Port) × (dump_ring_buffer lsr buf_size s p ≡ some q)
        × Sends s.com_base p (contents s) q
  dump_ring_buffer-Sends s p on v = (
    send s.com_base p (contents s),
    dump_ring_buffer-contents s p on v,
    send-Sends s.com_base p (contents s),
  )
