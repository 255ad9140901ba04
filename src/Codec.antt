-- ===== src/Codec.antt =====
-- client/common/hd_frame_codec.cpp: the frames between client and server. The header is packed, 40 bytes
-- in little endian. Lengths are 32-bit words; an access outside a buffer is none.
pub mod Laws
mod Tests
use htkis_hyper_disk.Base.{
  ℕ, zero, suc, ◌+◌, ◌-◌, ◌/◌, ◌%◌, ◌*◌, Bool, true, false, not, ◌&&◌, ◌||◌, List, [], ◌∷◌, ◌++◌,
  Option, none, some, ltb, ◌==◌, if◌then◌else◌, take, drop, length, u32, to_le, from_le,
}
use htkis_hyper_disk.BootDiag.Gpt.{compute_crc32c}

abbrev pub frame_magic : ℕ
frame_magic = 1212435271

abbrev pub frame_version : ℕ
frame_version = 1

abbrev pub frame_hdr_size : ℕ
frame_hdr_size = 40

pub data Opcode : Type 0 where
  block_read_req : Opcode
  block_read_rsp : Opcode
  block_write_req : Opcode
  block_write_rsp : Opcode
  heartbeat : Opcode
  heartbeat_ack : Opcode
  cache_invalidate : Opcode
  prefetch_push : Opcode
  vector_read_req : Opcode
  vector_read_rsp : Opcode
  vector_write_req : Opcode
  vector_write_rsp : Opcode
  error_rsp : Opcode

-- the numbers of the enumeration
abbrev pub opcode_byte : Opcode → ℕ
opcode_byte block_read_req = 1
opcode_byte block_read_rsp = 2
opcode_byte block_write_req = 3
opcode_byte block_write_rsp = 4
opcode_byte heartbeat = 16
opcode_byte heartbeat_ack = 17
opcode_byte cache_invalidate = 32
opcode_byte prefetch_push = 48
opcode_byte vector_read_req = 64
opcode_byte vector_read_rsp = 65
opcode_byte vector_write_req = 66
opcode_byte vector_write_rsp = 67
opcode_byte error_rsp = 255

-- `reserved` is the three reserved bytes as one number.
pub record FrameHeader : Type 0 where
  pub magic : ℕ
  pub version : ℕ
  pub opcode : ℕ
  pub flags : ℕ
  pub request_id : ℕ
  pub payload_len : ℕ
  pub image_id : ℕ
  pub block_offset : ℕ
  pub block_count : ℕ
  pub layer_id : ℕ
  pub reserved : ℕ

-- EncodeHeader
abbrev pub encode_header : Opcode → ℕ → ℕ → ℕ → ℕ → ℕ → ℕ → ℕ → FrameHeader
encode_header opcode flags request_id payload_len image_id block_offset block_count layer_id =
    record {
      magic = frame_magic;
      version = frame_version;
      opcode = opcode_byte opcode;
      flags = flags;
      request_id = request_id;
      payload_len = payload_len;
      image_id = image_id;
      block_offset = block_offset;
      block_count = block_count;
      layer_id = layer_id;
      reserved = 0;
    }

-- ValidateHeader
unfoldable pub validate_header : FrameHeader → Bool
validate_header hdr =
    if not (hdr.magic == frame_magic)
    then false
    else (if not (hdr.version == frame_version) then false else not (hdr.opcode == 0))

-- the header's bytes in memory, and the header that 40 bytes hold
abbrev pub header_memory : FrameHeader → List ℕ
header_memory h =
    to_le 4 h.magic
    ++ (to_le 2 h.version
        ++ (to_le 1 h.opcode
            ++ (to_le 1 h.flags
                ++ (to_le 4 h.request_id
                    ++ (to_le 4 h.payload_len
                        ++ (to_le 8 h.image_id
                            ++ (to_le 8 h.block_offset
                                ++ (to_le 4 h.block_count
                                    ++ (to_le 1 h.layer_id ++ to_le 3 h.reserved)))))))))

abbrev pub load_header : List ℕ → FrameHeader
load_header b = record {
  magic = from_le (take 4 b);
  version = from_le (take 2 (drop 4 b));
  opcode = from_le (take 1 (drop 6 b));
  flags = from_le (take 1 (drop 7 b));
  request_id = from_le (take 4 (drop 8 b));
  payload_len = from_le (take 4 (drop 12 b));
  image_id = from_le (take 8 (drop 16 b));
  block_offset = from_le (take 8 (drop 24 b));
  block_count = from_le (take 4 (drop 32 b));
  layer_id = from_le (take 1 (drop 36 b));
  reserved = from_le (take 3 (drop 37 b));
}

-- ComputeFrameCrc; ComputeCrc32C has the loop and the table of the boot tool's
pub compute_frame_crc : FrameHeader → ℕ
compute_frame_crc hdr = compute_crc32c (header_memory hdr)

-- What EncodeFrame gives: the result, total_len, and the bytes that are written at the buffer's start.
pub record Encoded : Type 0 where
  pub result : Bool
  pub total_len : ℕ
  pub written : List ℕ

-- the payload's bytes in a frame
abbrev pub frame_body : Option (List ℕ) → ℕ → List ℕ
frame_body none payload_len = []
frame_body (some p) payload_len = if ltb 0 payload_len then take payload_len p else []

-- the test of the length, and the copies of `bytes`
abbrev pub put_frame : ℕ → ℕ → List ℕ → Option Encoded
put_frame buf_size total_len bytes =
    if ltb buf_size total_len
    then some (record { result = false; total_len = total_len; written = [] })
    else (if ltb buf_size (length bytes)
        then none
        else some (record { result = true; total_len = total_len; written = bytes }))

-- EncodeFrame into a buffer of `buf_size` bytes; none if the copies write behind its end
pub encode_frame : ℕ → FrameHeader → Option (List ℕ) → ℕ → Option Encoded
encode_frame buf_size hdr payload payload_len =
    put_frame buf_size (u32 (frame_hdr_size + payload_len))
      (header_memory hdr ++ frame_body payload payload_len)

-- What DecodeFrame gives: the result, the header and the length as they are then, and the payload, if
-- it is copied.
pub record Decoded : Type 0 where
  pub result : Bool
  pub hdr : FrameHeader
  pub payload_len : ℕ
  pub payload : Option (List ℕ)

-- the checks of DecodeFrame on a header that is read, and the copy
pub decode_body : List ℕ → FrameHeader → ℕ → Bool → ℕ → Option Decoded
decode_body buffer hdr old_len wants_payload max_payload_len =
    let len = hdr.payload_len in
    if not (validate_header hdr)
    then some (record { result = false; hdr = hdr; payload_len = old_len; payload = none })
    else (if ltb (length buffer) (u32 (frame_hdr_size + len)) || ltb max_payload_len len
        then some (record { result = false; hdr = hdr; payload_len = len; payload = none })
        else (if wants_payload && ltb 0 len
            then (if ltb (length buffer) (frame_hdr_size + len)
                then none
                else some (record {
                  result = true;
                  hdr = hdr;
                  payload_len = len;
                  payload = some (take len (drop frame_hdr_size buffer));
                }))
            else some (record { result = true; hdr = hdr; payload_len = len; payload = none })))

-- DecodeFrame of a buffer as long as `buf_len` says; `hdr` and `old_len` are what the caller's header
-- and length held, and none stands for a read behind the buffer's end
pub decode_frame : List ℕ → FrameHeader → ℕ → Bool → ℕ → Option Decoded
decode_frame buffer hdr old_len wants_payload max_payload_len =
    if ltb (length buffer) frame_hdr_size
    then some (record { result = false; hdr = hdr; payload_len = old_len; payload = none })
    else decode_body buffer (load_header buffer) old_len wants_payload max_payload_len
