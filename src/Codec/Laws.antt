-- ===== src/Codec/Laws.antt =====
-- What a frame carries from EncodeFrame to DecodeFrame, and where the lengths wrap.
use mathlib.Core.Path.{subst, subst⁻¹}
use mathlib.Core.Option.{none-ne-some}
use htkis_hyper_disk.Base.{
  Bool, false, ◌≢◌, if-elim, ℕ, ◌+◌, ◌≡◌, ◌<◌, ◌≤◌, refl, sym, ap, ◌∙◌, true, false, List, [], ◌∷◌,
  ◌++◌, none, some, ltb, if◌then◌else◌, take, drop, length, u32, bound, from_le-to_le, take_all,
  arith, ◌↔◌,
}
use htkis_hyper_disk.Codec.{
  FrameHeader, validate_header, header_memory, load_header, frame_body, put_frame, encode_frame,
  decode_body, decode_frame,
}

-- Every field fits its width.
pub record Fits (h : FrameHeader) : Type 0 where
  pub magic_fits : h.magic < bound 4
  pub version_fits : h.version < bound 2
  pub opcode_fits : h.opcode < bound 1
  pub flags_fits : h.flags < bound 1
  pub request_id_fits : h.request_id < bound 4
  pub payload_len_fits : h.payload_len < bound 4
  pub image_id_fits : h.image_id < bound 8
  pub block_offset_fits : h.block_offset < bound 8
  pub block_count_fits : h.block_count < bound 4
  pub layer_id_fits : h.layer_id < bound 1
  pub reserved_fits : h.reserved < bound 3

load_header-header_memory :
    (h : FrameHeader) (p : List ℕ) → Fits h → load_header (header_memory h ++ p) ≡ h
load_header-header_memory h p v = λ i. record {
  magic = from_le-to_le 4 h.magic v.magic_fits i;
  version = from_le-to_le 2 h.version v.version_fits i;
  opcode = from_le-to_le 1 h.opcode v.opcode_fits i;
  flags = from_le-to_le 1 h.flags v.flags_fits i;
  request_id = from_le-to_le 4 h.request_id v.request_id_fits i;
  payload_len = from_le-to_le 4 h.payload_len v.payload_len_fits i;
  image_id = from_le-to_le 8 h.image_id v.image_id_fits i;
  block_offset = from_le-to_le 8 h.block_offset v.block_offset_fits i;
  block_count = from_le-to_le 4 h.block_count v.block_count_fits i;
  layer_id = from_le-to_le 1 h.layer_id v.layer_id_fits i;
  reserved = from_le-to_le 3 h.reserved v.reserved_fits i;
}

frame_body_lem : (p : List ℕ) → frame_body (some p) (length p) ≡ p
frame_body_lem [] = refl
frame_body_lem (x ∷ p) = ground (arith, take_all (length (x ∷ p)) (x ∷ p) refl)

pub put_frame-accepts :
    (buf_size total_len : ℕ) (bytes : List ℕ)
    → total_len ≤ buf_size
    → length bytes ≤ buf_size
    → put_frame buf_size total_len bytes
      ≡ some (record { result = true; total_len = total_len; written = bytes })
put_frame-accepts buf_size total_len bytes le room = ground (arith, le, room)

length-frame : (h : FrameHeader) (p : List ℕ) → length (header_memory h ++ p) ≡ 40 + length p
length-frame h p = omega arith

pub encode_frame-accepts :
    (buf_size : ℕ) (h : FrameHeader) (p : List ℕ)
    → 40 + length p ≤ buf_size
    → 40 + length p < 4294967296
    → encode_frame buf_size h (some p) (length p)
      ≡ some (record { result = true; total_len = 40 + length p; written = header_memory h ++ p })
unfolding encode_frame
encode_frame-accepts buf_size h p room small =
    ap (λ n. put_frame buf_size n (header_memory h ++ frame_body (some p) (length p)))
      (wrapped (length p) small)
    ∙ ap (λ l. put_frame buf_size (40 + length p) (header_memory h ++ l)) (frame_body_lem p)
    ∙ put_frame-accepts buf_size (40 + length p) (header_memory h ++ p) room
        (omega (arith, length-frame h p, room))
  where
    wrapped : (n : ℕ) → 40 + n < 4294967296 → u32 (40 + n) ≡ 40 + n
    wrapped n le = omega (arith, le)

decode_body-accepts :
    (f : List ℕ) (h : FrameHeader) (old_len max_len : ℕ)
    → validate_header h ≡ true
    → 0 < h.payload_len
    → 40 + h.payload_len ≤ length f
    → 40 + h.payload_len < 4294967296
    → h.payload_len ≤ max_len
    → decode_body f h old_len true max_len
      ≡ some (record {
        result = true;
        hdr = h;
        payload_len = h.payload_len;
        payload = some (take h.payload_len (drop 40 f));
      })
unfolding decode_body
decode_body-accepts f h old_len max_len good pos room small cap =
    ground (arith, good, pos, room, small, cap)

decode_frame-reads :
    (f : List ℕ) (old : FrameHeader) (old_len max_len : ℕ)
    → 40 ≤ length f
    → decode_frame f old old_len true max_len ≡ decode_body f (load_header f) old_len true max_len
unfolding decode_frame
decode_frame-reads f old old_len max_len long =
    ap
      (λ b.
        if b
        then some (record { result = false; hdr = old; payload_len = old_len; payload = none })
        else decode_body f (load_header f) old_len true max_len)
      (long_enough (length f) long)
  where
    long_enough : (n : ℕ) → 40 ≤ n → ltb n 40 ≡ false
    long_enough n h = ground (arith, h)

-- A frame that is encoded with a valid header whose fields fit their widths, and with a payload of the
-- length that the header says, at least one byte and with the header below 2 ^ 32, into a buffer that
-- is large enough: both calls succeed, and DecodeFrame with room for the payload gives back every
-- field of the header and the payload.
pub decode_frame-encode_frame :
    (buf_size old_len max_len : ℕ) (h old : FrameHeader) (p : List ℕ)
    → Fits h
    → validate_header h ≡ true
    → length p ≡ h.payload_len
    → 0 < length p
    → 40 + length p ≤ buf_size
    → 40 + length p < 4294967296
    → length p ≤ max_len
    → (encode_frame buf_size h (some p) (length p)
        ≡ some
            (record { result = true; total_len = 40 + length p; written = header_memory h ++ p }))
      × (decode_frame (header_memory h ++ p) old old_len true max_len
          ≡ some (record { result = true; hdr = h; payload_len = length p; payload = some p }))
decode_frame-encode_frame buf_size old_len max_len h old p v good len pos room small cap =
    (encode_frame-accepts buf_size h p room small, decoded)
  where
    decoded :
        decode_frame (header_memory h ++ p) old old_len true max_len
        ≡ some (record { result = true; hdr = h; payload_len = length p; payload = some p })
    decoded =
        decode_frame-reads (header_memory h ++ p) old old_len max_len
          (omega (arith, length-frame h p))
        ∙ ap (λ x. decode_body (header_memory h ++ p) x old_len true max_len)
            (load_header-header_memory h p v)
        ∙ decode_body-accepts (header_memory h ++ p) h old_len max_len good
            (omega (arith, len, pos)) (omega (arith, len, length-frame h p))
            (omega (arith, len, small)) (omega (arith, len, cap))
        ∙ ap
            (λ n.
              some (record { result = true; hdr = h; payload_len = n; payload = some (take n p) }))
            (sym len)
        ∙ ap
            (λ l.
              some (record { result = true; hdr = h; payload_len = length p; payload = some l }))
            (take_all (length p) p refl)

put_frame-overrun :
    (buf_size total_len : ℕ) (bytes : List ℕ)
    → (put_frame buf_size total_len bytes ≡ none)
      ↔ ((total_len ≤ buf_size) × (buf_size < length bytes))
put_frame-overrun buf_size total_len bytes = ground arith

-- EncodeFrame writes behind the end of the buffer exactly if the buffer is smaller than header and
-- payload together, but not smaller than their sum modulo 2 ^ 32, with which the code compares it.
pub encode_frame-overrun :
    (buf_size : ℕ) (h : FrameHeader) (p : List ℕ)
    → (encode_frame buf_size h (some p) (length p) ≡ none)
      ↔ ((u32 (40 + length p) ≤ buf_size) × (buf_size < 40 + length p))
unfolding encode_frame
encode_frame-overrun buf_size h p =
    subst⁻¹
      (λ l.
        (put_frame buf_size (u32 (40 + length p)) (header_memory h ++ l) ≡ none)
        ↔ ((u32 (40 + length p) ≤ buf_size) × (buf_size < 40 + length p)))
      (frame_body_lem p)
      (subst
        (λ n.
          (put_frame buf_size (u32 (40 + length p)) (header_memory h ++ p) ≡ none)
          ↔ ((u32 (40 + length p) ≤ buf_size) × (buf_size < n)))
        (length-frame h p)
        (put_frame-overrun buf_size (u32 (40 + length p)) (header_memory h ++ p)))

decode_body-answers :
    (f : List ℕ) (h : FrameHeader) (old_len max_len : ℕ) (wants : Bool)
    → 40 + max_len < 4294967296
    → decode_body f h old_len wants max_len ≢ none
unfolding decode_body
decode_body-answers f h old_len max_len wants small = ground (arith, small)

-- DecodeFrame never reads behind the end of its buffer if the caller's room for the payload is less
-- than 2 ^ 32 - 40 bytes.
pub decode_frame-answers :
    (f : List ℕ) (h : FrameHeader) (old_len max_len : ℕ) (wants : Bool)
    → 40 + max_len < 4294967296
    → decode_frame f h old_len wants max_len ≢ none
unfolding decode_frame
decode_frame-answers f h old_len max_len wants small =
    if-elim (λ r. r ≢ none) (ltb (length f) 40) (λ e. none-ne-some _ (sym e))
      (decode_body-answers f (load_header f) old_len max_len wants small)
