-- ===== src/Serial.antt =====
-- driver/common/hd_serial.c and hd_serial.h: the COM1 debug port and its ring of recent bytes.
-- The line status register is hardware: `lsr k` is what the k-th READ_PORT_UCHAR(ComBase + 5) gives.
-- The spin lock makes each ring update one step, so it leaves no trace in the state.
pub mod Ring
pub mod Wire
pub mod Log
mod Tests
use Prim.Native.Char.{code}
use Prim.Native.String
use Prim.Native.String.{String}
use htkis_hyper_disk.Base.{
  ℕ, zero, suc, ◌+◌, ◌/◌, ◌%◌, Bool, true, false, not, ◌&&◌, List, [], ◌∷◌, ◌++◌, Option, none,
  some, ltb, ◌==◌, if◌then◌else◌, set, get_or, replicate, ◌≡◌, arith,
}

-- HD_COM1_BASE and HD_SERIAL_BUF_SIZE
abbrev pub com1_base : ℕ
com1_base = 0x3F8

abbrev pub buf_size : ℕ
buf_size = 4096

-- HD_SERIAL_DEBUG. A byte is any number below 256; the ring only moves it.
pub record Serial : Type 0 where
  pub com_base : ℕ
  pub initialized : Bool
  pub ring_buffer : List ℕ
  pub ring_head : ℕ
  pub ring_tail : ℕ

-- The port: how many status reads were made, and the (address, byte) writes, oldest first.
pub record Port : Type 0 where
  pub reads : ℕ
  pub writes : List (ℕ × ℕ)

-- WRITE_PORT_UCHAR
abbrev pub write_port : Port → ℕ → ℕ → Port
write_port p addr byte = record p { writes = p.writes ++ ((addr, byte) ∷ []) }

-- `value & 0x20`, the bit "transmitter holding register empty"
abbrev pub transmit_empty : ℕ → Bool
transmit_empty v = (v / 32) % 2 == 1

abbrev pub byte_timeout : ℕ
byte_timeout = 100000

module _ (lsr : ℕ → ℕ) where
  -- The loop of HdSerialWriteByte over `timeout`: what is left of it, and the reads made so far. The
  -- register is read once more after the timeout has reached 0.
  pub wait_empty : ℕ → ℕ → ℕ × ℕ
  wait_empty zero k = (0, suc k)
  wait_empty (suc t) k =
      let rest = wait_empty t (suc k) in if transmit_empty (lsr k) then (suc t, suc k) else rest

  -- HdSerialWriteByte
  pub write_byte : ℕ → Port → ℕ → Port
  write_byte base p byte =
      let (left, reads) = wait_empty byte_timeout p.reads in
      let p' : Port = record p { reads = reads } in
      if ltb 0 left then write_port p' base byte else p'

-- The critical section of HdSerialWriteChar.
pub ring_put : Serial → ℕ → Serial
ring_put s ch =
    let head = (s.ring_head + 1) % buf_size in
    record s {
      ring_buffer = set s.ring_buffer s.ring_head ch;
      ring_head = head;
      ring_tail = if head == s.ring_tail then (s.ring_tail + 1) % buf_size else s.ring_tail;
    }

module _ (lsr : ℕ → ℕ) where
  -- HdSerialWriteChar
  pub write_char : Serial × Port → ℕ → Serial × Port
  write_char (s, p) ch =
      if s.initialized then (ring_put s ch, write_byte lsr s.com_base p ch) else (s, p)

  -- the loop of HdSerialWriteString, over the bytes before the terminating NUL
  pub write_chars : Serial × Port → List ℕ → Serial × Port
  write_chars w [] = w
  write_chars w (c ∷ cs) = write_chars (write_char w c) cs

  -- HdSerialWriteString
  pub write_string : Serial × Port → List ℕ → Serial × Port
  write_string (s, p) str = if s.initialized then write_chars (s, p) str else (s, p)

  -- The loop of HdSerialDumpRingBuffer; `none` means that the fuel ran out.
  pub dump_from : ℕ → Serial → ℕ → ℕ → Port → Option Port
  dump_from zero s tail head p = none
  dump_from (suc f) s tail head p =
      let rest =
        dump_from f s ((tail + 1) % buf_size) head
          (write_byte lsr s.com_base p (get_or s.ring_buffer tail 0)) in
      if tail == head then some p else rest

  -- HdSerialDumpRingBuffer
  pub dump_ring_buffer : ℕ → Serial → Port → Option Port
  dump_ring_buffer fuel s p =
      if s.initialized then dump_from fuel s s.ring_tail s.ring_head p else some p

-- The seven register writes of HdSerialInitialize.
pub setup_port : Port → Port
setup_port p = record p {
  writes =
      p.writes
      ++ ((com1_base + 1, 0x00)
          ∷ (com1_base + 3, 0x80)
          ∷ (com1_base + 0, 0x01)
          ∷ (com1_base + 1, 0x00)
          ∷ (com1_base + 3, 0x03)
          ∷ (com1_base + 2, 0xC7)
          ∷ (com1_base + 4, 0x0B)
          ∷ []);
}

-- the fields that HdSerialInitialize sets; the ring buffer keeps what the memory held
pub reset : Serial → Serial
reset s = record s { com_base = com1_base; initialized = true; ring_head = 0; ring_tail = 0 }

abbrev pub codes : String → List ℕ
codes String.[] = []
codes (String.◌∷◌ c s) = code c ∷ codes s

abbrev pub greeting : List ℕ
greeting = codes "[HyperDisk] COM1 serial debug initialized" ++ (13 ∷ 10 ∷ [])

-- HdSerialInitialize
pub initialize : (ℕ → ℕ) → Serial → Port → Serial × Port
initialize lsr s p = write_string lsr (reset s, setup_port p) greeting
