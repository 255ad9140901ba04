-- ===== src/Serial/Tests.antt =====
-- Concrete runs of the serial port's functions, and instances of the theorems about them.
use htkis_hyper_disk.Base.{
  ℕ, zero, suc, ◌+◌, ◌<◌, ◌≡◌, refl, List, [], ◌∷◌, ◌++◌, arith, length, replicate,
  length-replicate, if◌then◌else◌, true, false, some, ltb,
}
use htkis_hyper_disk.Serial.{
  Serial, Port, buf_size, transmit_empty, dump_ring_buffer, write_string, com1_base, ring_put,
  write_char, write_chars,
}
use htkis_hyper_disk.Serial.Ring.{IsValid, bytes_from, contents, recent}
use htkis_hyper_disk.Serial.Log.{write_string-recent}
use htkis_hyper_disk.Serial.Wire.{Sends, dump_ring_buffer-Sends}

-- the transmitter is empty from the third read on
abbrev slow_start : ℕ → ℕ
slow_start n = if ltb n 2 then 0x40 else 0x60

abbrev cold : Serial
cold = record {
  com_base = 0;
  initialized = false;
  ring_buffer = replicate buf_size 0;
  ring_head = 17;
  ring_tail = 4;
}

abbrev no_port : Port
no_port = record { reads = 0; writes = [] }

abbrev text : List ℕ
text = 72 ∷ 68 ∷ []

abbrev warm : Serial
warm = record cold { com_base = com1_base; initialized = true; ring_head = 0; ring_tail = 0 }

cold_length : length cold.ring_buffer ≡ buf_size
cold_length = length-replicate {A = ℕ} buf_size 0

warm-IsValid : IsValid warm
warm-IsValid = record { storage = cold_length; head_in = omega arith; tail_in = omega arith }

write_string-recent_example :
    IsValid (write_string slow_start (warm, no_port) text).0
    × (contents (write_string slow_start (warm, no_port) text).0 ≡ recent (contents warm ++ text))
write_string-recent_example = write_string-recent slow_start warm no_port text refl warm-IsValid

not_empty_before : (j : ℕ) → j < 2 → transmit_empty (slow_start (0 + j)) ≡ false
not_empty_before zero h = refl
not_empty_before (suc zero) h = refl
not_empty_before (suc (suc j)) h = absurd (omega arith)

-- a ring that holds four bytes, round its end
abbrev four : Serial
four = record warm { ring_head = 2; ring_tail = 4094 }

dump_ring_buffer-Sends_example :
    (q : Port) × (dump_ring_buffer slow_start buf_size four no_port ≡ some q)
    × Sends slow_start com1_base no_port (contents four) q
dump_ring_buffer-Sends_example =
    dump_ring_buffer-Sends slow_start four no_port refl
      (record { storage = cold_length; head_in = omega arith; tail_in = omega arith })

held : contents four ≡ 0 ∷ 0 ∷ 0 ∷ 0 ∷ []
unfolding contents bytes_from
held = refl

written : contents (write_string slow_start (warm, no_port) text).0 ≡ text
unfolding contents bytes_from write_string write_chars write_char ring_put
written = refl
