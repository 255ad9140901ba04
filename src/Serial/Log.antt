-- ===== src/Serial/Log.antt =====
-- HdSerialWriteChar and HdSerialWriteString against a log that keeps its last 4095 bytes.
use htkis_hyper_disk.Base.{
  ℕ, suc, ◌+◌, ◌-◌, ◌%◌, ◌≤◌, ◌≡◌, refl, sym, ap, ◌∙◌, List, [], ◌∷◌, ◌++◌, arith, length, set,
  drop, length-append, length-drop, ◌==◌, inl, inr, Bool-cases, true, ==_iff, drop-append_le,
  drop-drop, ==-false,
}
use mathlib.Core.List.{append_assoc, append-nil}
use htkis_hyper_disk.Serial.{
  initialize, reset, setup_port, greeting, Serial, Port, buf_size, ring_put, write_char,
  write_chars, write_string, write_byte,
}
use htkis_hyper_disk.Serial.Ring.{
  IsValid, fill, bytes_from, contents, recent, length-bytes_from, bytes_from-mod, bytes_from-set,
  ring_put-IsValid, reset-IsValid, contents-reset,
}

recent-append : (l m : List ℕ) → recent (recent l ++ m) ≡ recent (l ++ m)
unfolding recent
recent-append l m =
    ap (λ x. drop (length (drop k l ++ m) - 4095) x) (sym (drop-append_le k l m (omega arith)))
    ∙ drop-drop (length (drop k l ++ m) - 4095) k (l ++ m)
    ∙ ap (λ j. drop j (l ++ m)) total
  where
    k : ℕ
    k = length l - 4095

    total : k + (length (drop k l ++ m) - 4095) ≡ length (l ++ m) - 4095
    total = omega (arith, length-append l m, length-append (drop k l) m, length-drop k l)

recent_short : (l : List ℕ) → length l ≤ 4095 → recent l ≡ l
unfolding recent
recent_short l h = let e : length l - 4095 ≡ 0 = omega arith in rw e

recent_full : (l : List ℕ) → length l ≡ 4096 → recent l ≡ drop 1 l
unfolding recent
recent_full l h = let e : length l - 4095 ≡ 1 = omega arith in rw e

length-snoc : (s : Serial) (c : ℕ) → length (contents s ++ (c ∷ [])) ≡ fill s + 1
unfolding contents
length-snoc s c = omega (
  arith,
  length-append (contents s) (c ∷ []),
  length-bytes_from s.ring_buffer s.ring_tail (fill s),
)

-- the bytes of the ring with `c` written at the head, from the old tail on
bytes_from-snoc :
    {s : Serial} (c n : ℕ)
    → IsValid s
    → n ≡ suc (fill s)
    → bytes_from (set s.ring_buffer s.ring_head c) s.ring_tail n ≡ contents s ++ (c ∷ [])
unfolding contents
bytes_from-snoc {s} c n v e =
    ap (λ k. bytes_from (set s.ring_buffer s.ring_head c) s.ring_tail k) e
    ∙ bytes_from-set s.ring_buffer s.ring_tail s.ring_head c (fill s) v.storage (omega arith)
        (omega arith)

-- the same from behind the old tail, when the ring is full
bytes_from-snoc_tail :
    {s : Serial} (c n : ℕ)
    → IsValid s
    → (s.ring_head + 1) % buf_size ≡ s.ring_tail
    → n ≡ 4095
    → bytes_from (set s.ring_buffer s.ring_head c) ((s.ring_tail + 1) % buf_size) n
      ≡ drop 1 (contents s ++ (c ∷ []))
unfolding bytes_from
bytes_from-snoc_tail {s} c n v full e =
    bytes_from-mod ring ((s.ring_tail + 1) % buf_size) (s.ring_tail + 1) n (omega arith)
    ∙ ap (λ l. drop 1 l) (bytes_from-snoc c (suc n) v (omega arith))
  where
    ring : List ℕ
    ring = set s.ring_buffer s.ring_head c

-- Putting a byte into a valid ring appends it to what the ring holds, and drops the oldest byte if
-- the ring held 4095.
contents-ring_put :
    {s : Serial} (c : ℕ) → IsValid s → contents (ring_put s c) ≡ recent (contents s ++ (c ∷ []))
unfolding ring_put contents
contents-ring_put {s} c v = elim (Bool-cases ((s.ring_head + 1) % buf_size == s.ring_tail)) [
  | inl full ↦
      let e = (==_iff _ _).0 full in
      rw full (
        bytes_from-snoc_tail c _ v e (omega arith)
        ∙ sym (recent_full (contents s ++ (c ∷ [])) (omega (arith, length-snoc s c))))
  | inr room ↦
      let ne = ==-false _ _ room in
      rw room (
        bytes_from-snoc c _ v (omega arith)
        ∙ sym (recent_short (contents s ++ (c ∷ [])) (omega (arith, length-snoc s c))))
]

length-contents : (s : Serial) → length (contents s) ≡ fill s
unfolding contents
length-contents s = length-bytes_from s.ring_buffer s.ring_tail (fill s)

module _ (lsr : ℕ → ℕ) where
  pub write_char-on :
      (s : Serial) (p : Port) (c : ℕ)
      → s.initialized ≡ true
      → write_char lsr (s, p) c ≡ (ring_put s c, write_byte lsr s.com_base p c)
  unfolding write_char
  write_char-on s p c on = simp on

  initialized-ring_put : (s : Serial) (c : ℕ) → (ring_put s c).initialized ≡ s.initialized
  unfolding ring_put
  initialized-ring_put s c = refl

  write_chars-step :
      (s : Serial) (p : Port) (c : ℕ) (cs : List ℕ)
      → s.initialized ≡ true
      → write_chars lsr (s, p) (c ∷ cs)
        ≡ write_chars lsr (ring_put s c, write_byte lsr s.com_base p c) cs
  unfolding write_chars
  write_chars-step s p c cs on = ap (λ w. write_chars lsr w cs) (write_char-on s p c on)

  write_chars-nil : (w : Serial × Port) → write_chars lsr w [] ≡ w
  unfolding write_chars
  write_chars-nil w = refl

  write_chars-keeps :
      (s : Serial) (p : Port) (cs : List ℕ)
      → s.initialized ≡ true
      → IsValid s
      → IsValid (write_chars lsr (s, p) cs).0
        × (contents (write_chars lsr (s, p) cs).0 ≡ recent (contents s ++ cs))
  write_chars-keeps s p [] on v = rw (write_chars-nil (s, p)) (
    v,
    sym (
        ap recent (append-nil (contents s))
        ∙ recent_short (contents s) (omega (arith, length-contents s))),
  )
  write_chars-keeps s p (c ∷ cs) on v = rw (write_chars-step s p c cs on) (
      let ih =
        write_chars-keeps (ring_put s c) (write_byte lsr s.com_base p c) cs
          (initialized-ring_put s c ∙ on) (ring_put-IsValid c v) in
      (
        ih.0,
        ih.1
            ∙ ap (λ l. recent (l ++ cs)) (contents-ring_put c v)
            ∙ recent-append (contents s ++ (c ∷ [])) cs
            ∙ ap recent (append_assoc (contents s) (c ∷ []) cs),
      ))

  -- Writing a string to an initialised port whose ring is valid keeps the ring valid, and leaves in
  -- it exactly the last 4095 bytes of what it held followed by the string, oldest first.
  pub write_string-recent :
      (s : Serial) (p : Port) (str : List ℕ)
      → s.initialized ≡ true
      → IsValid s
      → IsValid (write_string lsr (s, p) str).0
        × (contents (write_string lsr (s, p) str).0 ≡ recent (contents s ++ str))
  unfolding write_string
  write_string-recent s p str on v = simp on (write_chars-keeps s p str on v)

initialized-reset : (s : Serial) → (reset s).initialized ≡ true
unfolding reset
initialized-reset s = refl

-- HdSerialInitialize on a buffer of 4096 bytes leaves a valid ring that holds its greeting and nothing
-- else, whatever the memory held and whether or not the port takes bytes.
pub initialize-greeting :
    (lsr : ℕ → ℕ) (s : Serial) (p : Port)
    → length s.ring_buffer ≡ buf_size
    → IsValid (initialize lsr s p).0 × (contents (initialize lsr s p).0 ≡ greeting)
unfolding initialize
initialize-greeting lsr s p h =
    let w =
      write_string-recent lsr (reset s) (setup_port p) greeting (initialized-reset s)
        (reset-IsValid s h) in
    (
      w.0,
      w.1
          ∙ ap (λ l. recent (l ++ greeting)) (contents-reset s)
          ∙ recent_short greeting (omega arith),
    )
