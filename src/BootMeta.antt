-- ===== src/BootMeta.antt =====
-- client/boot_agent/boot_meta.cpp: the record that tells the boot agent its image and its servers, from
-- a file or from a server. BootMeta is packed, 310 bytes in little endian; the code reads, writes and
-- checks it as memory, and so does the model. The answers of the file and of the socket are arguments.
pub mod Saved
pub mod Served
mod Tests
use Prim.Native.Nat.{bit_xor}
use htkis_hyper_disk.Base.{
  ℕ, zero, suc, ◌+◌, ◌-◌, ◌/◌, ◌%◌, Bool, true, false, not, ◌&&◌, ◌||◌, List, [], ◌∷◌, ◌++◌, Option,
  none, some, ltb, leb, ◌==◌, if◌then◌else◌, take, drop, length, replicate, u32, to_le, from_le,
  ◌>>=◌,
}
use htkis_hyper_disk.Codec.{
  FrameHeader, Encoded, Decoded, Opcode, block_read_req, block_read_rsp, opcode_byte, encode_header,
  encode_frame, decode_frame,
}

abbrev pub boot_meta_magic : ℕ
boot_meta_magic = 1212432973

abbrev pub boot_meta_version : ℕ
boot_meta_version = 1

-- the loops of Crc32c, on the bits of a byte and on the bytes
abbrev pub crc_bits : ℕ → ℕ → ℕ
crc_bits zero crc = crc
crc_bits (suc j) crc = crc_bits j (bit_xor (crc / 2) (if (crc % 2) == 1 then 2197175160 else 0))

abbrev pub crc_loop : ℕ → List ℕ → ℕ
crc_loop crc [] = crc
crc_loop crc (b ∷ bs) = crc_loop (crc_bits 8 (bit_xor crc b)) bs

-- Crc32c, whose result is a 32-bit word
pub crc32c : List ℕ → ℕ
crc32c bytes = u32 (bit_xor (crc_loop 4294967295 bytes) 4294967295)

-- The members: the bytes of meta_, and valid_.
pub record BootMetaCache : Type 0 where
  pub meta : List ℕ
  pub valid : Bool

-- fields of the record, by their offsets
abbrev pub magic_of : List ℕ → ℕ
magic_of m = from_le (take 4 m)

abbrev pub image_id_of : List ℕ → ℕ
image_id_of m = from_le (take 8 (drop 6 m))

abbrev pub layer_id_of : List ℕ → ℕ
layer_id_of m = from_le (take 1 (drop 30 m))

abbrev pub crc_of : List ℕ → ℕ
crc_of m = from_le (take 4 (drop 306 m))

-- ComputeCrc and ValidateCrc
abbrev pub compute_crc : List ℕ → ℕ
compute_crc m = crc32c (take 306 m)

abbrev pub validate_crc : List ℕ → Bool
validate_crc m = crc_of m == compute_crc m

-- ApplyDefaults: zeros, but for the magic number, the version, the block size, the primary server's
-- address "10.10.200.10" and its port
unfoldable pub default_meta : List ℕ
default_meta =
    to_le 4 boot_meta_magic
    ++ (to_le 2 boot_meta_version
        ++ (replicate 16 0
            ++ (to_le 4 4096
                ++ (replicate 8 0
                    ++ ((49 ∷ 48 ∷ 46 ∷ 49 ∷ 48 ∷ 46 ∷ 50 ∷ 48 ∷ 48 ∷ 46 ∷ 49 ∷ 48 ∷ [])
                        ++ (replicate 52 0 ++ (to_le 2 9527 ++ replicate 210 0)))))))

abbrev pub apply_defaults : BootMetaCache
apply_defaults = record { meta = default_meta; valid = false }

-- Load on the bytes of the file, if it can be opened: the cache and the result
pub load : Option (List ℕ) → BootMetaCache × Bool
load none = (apply_defaults, false)
load (some file) =
    let meta = take 310 file in
    if ltb (length file) 310 || not (magic_of meta == boot_meta_magic)
    then (apply_defaults, false)
    else (if not (validate_crc meta)
        then (apply_defaults, false)
        else (record { meta = meta; valid = true }, true))

-- the record with magic number, version and CRC set, as Save leaves it
abbrev pub stamped : List ℕ → List ℕ
stamped m = to_le 4 boot_meta_magic ++ (to_le 2 boot_meta_version ++ drop 6 m)

pub sealed_meta : List ℕ → List ℕ
sealed_meta m = take 306 (stamped m) ++ to_le 4 (compute_crc (stamped m))

-- Save: the cache, the bytes of the file, if it can be opened, and the result
pub save : Bool → Bool → BootMetaCache → BootMetaCache × Option (List ℕ) × Bool
save opened good c =
    let saved = record c { meta = sealed_meta c.meta } in
    if opened then (saved, some saved.meta, good) else (saved, none, false)

-- the frame with which LoadFromServer asks for the first block, in a buffer of 65 bytes
abbrev pub request_header : List ℕ → FrameHeader
request_header m = encode_header block_read_req 0 1 21 (image_id_of m) 0 1 (layer_id_of m)

abbrev pub request_payload : List ℕ → List ℕ
request_payload m = to_le 8 (image_id_of m) ++ (to_le 8 0 ++ (to_le 4 1 ++ to_le 1 (layer_id_of m)))

abbrev pub request : List ℕ → Option Encoded
request m = encode_frame 65 (request_header m) (some (request_payload m)) 21

-- What the calls of the socket answer: whether the connection is made and the request is sent, and
-- the bytes that come back, none for an error or an end.
pub record Socket : Type 0 where
  pub connects : Bool
  pub sends : Bool
  pub receives : Option (List ℕ)

-- the use of an answer: its payload, which is at least 24 bytes of response and a record
abbrev pub take_record : BootMetaCache → FrameHeader → List ℕ → BootMetaCache × Bool
take_record c rsp payload =
    let meta = take 310 (drop 24 payload) in
    let ok = (magic_of meta == boot_meta_magic) && validate_crc meta in
    if (rsp.opcode == opcode_byte block_read_rsp)
      && ((from_le (take 4 (drop 20 payload)) == 0) && leb (24 + 310) (length payload))
    then (record { meta = meta; valid = ok }, ok)
    else (c, false)

-- a header of zeros
abbrev pub no_header : FrameHeader
no_header = record {
  magic = 0;
  version = 0;
  opcode = 0;
  flags = 0;
  request_id = 0;
  payload_len = 0;
  image_id = 0;
  block_offset = 0;
  block_count = 0;
  layer_id = 0;
  reserved = 0;
}

-- the answer's payload, if the frame is accepted and has one
abbrev pub use_answer : BootMetaCache → Decoded → BootMetaCache × Bool
use_answer c d = elim d.payload [
  | none ↦ (c, false)
  | some payload ↦ if d.result then take_record c d.hdr payload else (c, false)
]

-- what is done with the bytes that came back; none if DecodeFrame reads behind their end
abbrev pub answered : BootMetaCache → Option (List ℕ) → Option (BootMetaCache × Bool)
answered c none = some (c, false)
answered c (some bytes) = do d ← decode_frame bytes no_header 0 true 65536; some (use_answer c d)

-- LoadFromServer; none if a frame is written or read outside its buffer
pub load_from_server : Socket → BootMetaCache → Option (BootMetaCache × Bool)
load_from_server s c = if not s.connects then some (c, false) else (do
  sent ← request c.meta
  if not (sent.result && s.sends) then some (c, false) else answered c s.receives)
