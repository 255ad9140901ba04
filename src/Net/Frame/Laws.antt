-- ===== src/Net/Frame/Laws.antt =====
-- What a frame carries from HdNetSerializeFrame to HdNetDeserializeFrame, and what it does not.
use htkis_hyper_disk.Base.{
  ℕ, ◌+◌, ◌≡◌, ◌<◌, ◌≤◌, refl, ap, ◌∙◌, Bool, true, List, ◌++◌, Option, none, some, take, drop,
  length, arith, ◌⊎◌, ◌≢◌, bound, from_le-to_le, take_all,
}
use htkis_hyper_disk.Nt.{success}
use htkis_hyper_disk.Net.{Header, hd_magic, hd_version}
use htkis_hyper_disk.Net.Frame.{
  hdr_size, front_bytes, load_front, serialize, check_frame, deserialize,
}

-- Every field that a frame carries fits its width.
pub record Fits (h : Header) : Type 0 where
  pub magic_fits : h.magic < bound 4
  pub version_fits : h.version < bound 2
  pub frame_type_fits : h.frame_type < bound 1
  pub flags_fits : h.flags < bound 1
  pub frame_id_fits : h.frame_id < bound 4
  pub payload_len_fits : h.payload_len < bound 4
  pub image_id_fits : h.image_id < bound 8
  pub block_offset_fits : h.block_offset < bound 8

load_front-front_bytes :
    (h g : Header) (p : List ℕ)
    → Fits h
    → load_front (front_bytes h ++ p) g
      ≡ record h { block_count = g.block_count; layer_id = g.layer_id }
load_front-front_bytes h g p v = λ i. record {
  magic = from_le-to_le 4 h.magic v.magic_fits i;
  version = from_le-to_le 2 h.version v.version_fits i;
  frame_type = from_le-to_le 1 h.frame_type v.frame_type_fits i;
  flags = from_le-to_le 1 h.flags v.flags_fits i;
  frame_id = from_le-to_le 4 h.frame_id v.frame_id_fits i;
  payload_len = from_le-to_le 4 h.payload_len v.payload_len_fits i;
  image_id = from_le-to_le 8 h.image_id v.image_id_fits i;
  block_offset = from_le-to_le 8 h.block_offset v.block_offset_fits i;
  block_count = g.block_count;
  layer_id = g.layer_id;
}

check_frame_accepts :
    (g h : Header) (f : List ℕ)
    → hdr_size + h.payload_len ≤ length f
    → h.magic ≡ hd_magic
    → h.version ≡ hd_version
    → 0 < h.payload_len
    → check_frame g h f true ≡ record {
      status = success;
      header = some h;
      payload = some (take h.payload_len (drop hdr_size f));
    }
unfolding check_frame
check_frame_accepts g h f fits m ver pos = ground arith

serialize_frame :
    (h : Header) (p : List ℕ)
    → 0 < h.payload_len
    → (serialize (some h) (some p) true true).1 ≡ front_bytes h ++ take h.payload_len p
unfolding serialize
serialize_frame h p pos = ground arith

-- A frame made from a header with the protocol's magic number and version, whose fields fit their
-- widths, and from a payload of the length that the header says, at least one byte, is accepted. What
-- is read back is the payload and every header field but two: BlockCount and LayerId lie behind the 32
-- bytes that are copied, and keep the values that the receiver's header held before.
pub deserialize-serialize :
    (h g : Header) (p : List ℕ)
    → Fits h
    → h.magic ≡ hd_magic
    → h.version ≡ hd_version
    → length p ≡ h.payload_len
    → 0 < h.payload_len
    → deserialize (some (serialize (some h) (some p) true true).1) (some g) true ≡ record {
      status = success;
      header = some (record h { block_count = g.block_count; layer_id = g.layer_id });
      payload = some p;
    }
unfolding deserialize
deserialize-serialize h g p v m ver len pos =
    ap (λ f. check_frame g (load_front f g) f true)
      (serialize_frame h p pos ∙ ap (λ l. front_bytes h ++ l) (take_all h.payload_len p len))
    ∙ ap (λ x. check_frame g x (front_bytes h ++ p) true) (load_front-front_bytes h g p v)
    ∙ check_frame_accepts g h' (front_bytes h ++ p) (omega arith) m ver pos
    ∙ ap (λ l. record { status = success; header = some h'; payload = some l })
        (take_all h.payload_len p len)
  where
    h' : Header
    h' = record h { block_count = g.block_count; layer_id = g.layer_id }

check_frame_refuses :
    (g h : Header) (f : List ℕ) (wants_payload : Bool)
    → (length f < hdr_size) ⊎ (h.magic ≢ hd_magic) ⊎ (h.version ≢ hd_version)
    → ((check_frame g h f wants_payload).status ≢ success)
      × ((check_frame g h f wants_payload).header ≡ some g)
      × ((check_frame g h f wants_payload).payload ≡ none)
unfolding check_frame
check_frame_refuses g h f wants_payload bad = ground arith

-- A frame that is refused changes nothing: whatever the bytes and the receiver's header, if the status
-- is not STATUS_SUCCESS then the header is as before and no payload is written. A frame of fewer than
-- 32 bytes is refused, and so is one with another magic number or version.
pub deserialize_refuses :
    (f : List ℕ) (g : Header) (wants_payload : Bool)
    → (length f < hdr_size)
      ⊎ ((load_front f g).magic ≢ hd_magic)
      ⊎ ((load_front f g).version ≢ hd_version)
    → ((deserialize (some f) (some g) wants_payload).status ≢ success)
      × ((deserialize (some f) (some g) wants_payload).header ≡ some g)
      × ((deserialize (some f) (some g) wants_payload).payload ≡ none)
unfolding deserialize
deserialize_refuses f g wants_payload bad =
    check_frame_refuses g (load_front f g) f wants_payload bad

-- HdNetSerializeFrame does not see the block count and the layer: headers that differ only there give
-- the same status, frame and length.
pub serialize_blind :
    (h : Header) (count layer : ℕ) (payload : Option (List ℕ)) (has_frame has_len : Bool)
    → serialize
        (some (record h { block_count = count; layer_id = layer }))
        payload
        has_frame
        has_len
      ≡ serialize (some h) payload has_frame has_len
unfolding serialize
serialize_blind h count layer payload has_frame has_len = refl
