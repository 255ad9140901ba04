-- ===== src/Net/Frame.antt =====
-- net_frame.c: HdNetSerializeFrame and HdNetDeserializeFrame on bytes. HD_NET_FRAME_HEADER has its
-- fields at their natural alignment, little endian, 40 bytes in all; the copies take 32 of them.
pub mod Laws
use htkis_hyper_disk.Base.{
  ℕ, zero, suc, ◌+◌, ◌-◌, ◌/◌, ◌%◌, ◌*◌, Bool, true, false, not, ◌&&◌, ◌||◌, List, [], ◌∷◌, ◌++◌,
  Option, none, some, ltb, leb, ◌==◌, if◌then◌else◌, take, drop, length, u32, to_le, from_le,
}
use htkis_hyper_disk.Nt.{
  Status, success, insufficient_resources, invalid_parameter, data_not_accepted, revision_mismatch,
}
use htkis_hyper_disk.Net.{Header, hd_magic, hd_version}

-- HD_NET_FRAME_HDR_SIZE
abbrev pub hdr_size : ℕ
hdr_size = 32

-- the first 32 bytes of the struct in memory: the fields up to BlockOffset
abbrev pub front_bytes : Header → List ℕ
front_bytes h =
    to_le 4 h.magic
    ++ (to_le 2 h.version
        ++ (to_le 1 h.frame_type
            ++ (to_le 1 h.flags
                ++ (to_le 4 h.frame_id
                    ++ (to_le 4 h.payload_len ++ (to_le 8 h.image_id ++ to_le 8 h.block_offset))))))

-- its last eight bytes, with the reserved ones zero
abbrev pub back_bytes : Header → List ℕ
back_bytes h = to_le 4 h.block_count ++ (to_le 1 h.layer_id ++ to_le 3 0)

-- RtlCopyMemory(Header, pHdr, HD_NET_FRAME_HDR_SIZE): the bytes on the fields that they cover
abbrev pub load_front : List ℕ → Header → Header
load_front b h = record h {
  magic = from_le (take 4 b);
  version = from_le (take 2 (drop 4 b));
  frame_type = from_le (take 1 (drop 6 b));
  flags = from_le (take 1 (drop 7 b));
  frame_id = from_le (take 4 (drop 8 b));
  payload_len = from_le (take 4 (drop 12 b));
  image_id = from_le (take 8 (drop 16 b));
  block_offset = from_le (take 8 (drop 24 b));
}

-- HdNetSerializeFrame, whose arguments may be null. `OutFrame` is taken as large as the frame; what
-- is returned is the frame's bytes and `*OutLen`. A payload is read for as long as the header says.
pub serialize : Option Header → Option (List ℕ) → Bool → Bool → Status × List ℕ × Option ℕ
serialize none payload has_frame has_len = (invalid_parameter, [], none)
serialize (some h) payload has_frame has_len =
    let body : List ℕ = elim payload [
      | none ↦ []
      | some p ↦ if ltb 0 h.payload_len then take h.payload_len p else []
    ] in
    if has_frame && has_len
    then (
      success,
      take hdr_size (front_bytes h ++ back_bytes h) ++ body,
      some (u32 (hdr_size + h.payload_len)),
    )
    else (invalid_parameter, [], none)

-- What HdNetDeserializeFrame gives: the status, the header, and the payload with its length, if they
-- are written.
pub record Parsed : Type 0 where
  pub status : Status
  pub header : Option Header
  pub payload : Option (List ℕ)

-- The checks of HdNetDeserializeFrame on a frame that is there, with the fields that its first 32
-- bytes hold; they are read only if there are 32.
pub check_frame : Header → Header → List ℕ → Bool → Parsed
check_frame header h f wants_payload =
    let left = length f - hdr_size in
    let copy_len = if ltb left h.payload_len then left else h.payload_len in
    let body = take copy_len (drop hdr_size f) in
    if ltb (length f) hdr_size
    then record { status = invalid_parameter; header = some header; payload = none }
    else (if not (h.magic == hd_magic)
        then record { status = data_not_accepted; header = some header; payload = none }
        else (if not (h.version == hd_version)
            then record { status = revision_mismatch; header = some header; payload = none }
            else record {
              status = success;
              header = some h;
              payload = if wants_payload && ltb 0 h.payload_len then some body else none;
            }))

-- HdNetDeserializeFrame. `FrameLen` is the length of the bytes; `header` is what `*Header` held before,
-- and `wants_payload` says that both payload arguments are given.
pub deserialize : Option (List ℕ) → Option Header → Bool → Parsed
unfolding check_frame
deserialize none header wants_payload = record {
  status = invalid_parameter;
  header = header;
  payload = none;
}
deserialize (some f) none wants_payload = record {
  status = invalid_parameter;
  header = none;
  payload = none;
}
deserialize (some f) (some header) wants_payload =
    check_frame header (load_front f header) f wants_payload
