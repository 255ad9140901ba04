-- ===== src/Codec/Tests.antt =====
-- A frame with three bytes of payload, and a length that wraps.
use htkis_hyper_disk.Base.{
  ℕ, ◌≡◌, ◌<◌, ◌≤◌, ◌↔◌, refl, true, List, [], ◌∷◌, ◌++◌, none, some, arith, u32,
}
use htkis_hyper_disk.Codec.{
  block_read_rsp, FrameHeader, encode_header, validate_header, header_memory, encode_frame,
  decode_frame,
}
use htkis_hyper_disk.Codec.Laws.{Fits, decode_frame-encode_frame, encode_frame-overrun}

abbrev payload : List ℕ
payload = 1 ∷ 2 ∷ 3 ∷ []

abbrev header : FrameHeader
header = encode_header block_read_rsp 4 77 3 9 4096 1 2

header-Fits : Fits header
header-Fits = record {
  magic_fits = omega arith;
  version_fits = omega arith;
  opcode_fits = omega arith;
  flags_fits = omega arith;
  request_id_fits = omega arith;
  payload_len_fits = omega arith;
  image_id_fits = omega arith;
  block_offset_fits = omega arith;
  block_count_fits = omega arith;
  layer_id_fits = omega arith;
  reserved_fits = omega arith;
}

header-valid : validate_header header ≡ true
unfolding validate_header
header-valid = refl

decode_frame-encode_frame_example :
    (encode_frame 64 header (some payload) 3
      ≡ some (record { result = true; total_len = 43; written = header_memory header ++ payload }))
    × (decode_frame (header_memory header ++ payload) header 0 true 16
        ≡ some (record { result = true; hdr = header; payload_len = 3; payload = some payload }))
decode_frame-encode_frame_example =
    decode_frame-encode_frame 64 0 16 header header payload header-Fits header-valid refl
      (omega arith) (omega arith) (omega arith) (omega arith)

encode_frame-overrun_example :
    (encode_frame 64 header (some payload) 3 ≡ none) ↔ ((u32 43 ≤ 64) × (64 < 43))
encode_frame-overrun_example = encode_frame-overrun 64 header payload
