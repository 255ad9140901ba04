-- ===== src/BootMeta/Served.antt =====
-- What LoadFromServer takes from a server.
use mathlib.Core.Path.{subst, subst⁻¹}
use mathlib.Core.Option.{some-injective, none-ne-some}
use mathlib.Core.Bool.{true≢false}
use htkis_hyper_disk.Base.{
  ℕ, ◌+◌, ◌≡◌, ◌≤◌, refl, sym, ap, ◌∙◌, Bool, true, false, not, ◌&&◌, List, Option, none, some, leb,
  ◌==◌, if◌then◌else◌, if-split, take, drop, length, from_le, arith, ◌>>=◌, Option-cases, inl, inr,
}
use htkis_hyper_disk.Codec.{opcode_byte, block_read_rsp, Decoded, decode_frame}
use htkis_hyper_disk.Codec.Laws.{encode_frame-accepts, decode_frame-answers}
use htkis_hyper_disk.BootMeta.{
  no_header, BootMetaCache, validate_crc, take_record, use_answer, answered, request,
  request_header, request_payload, Socket, load_from_server,
}

-- The socket's answer is a frame that DecodeFrame accepts, with the payload `payload`: the opcode is
-- that of an answer to a block request, 0x02, the status in the payload's bytes 20 to 23 is 0, and the
-- payload has room for the 24 bytes of the response and the 310 of a record.
pub record HasRecord (s : Socket) (payload : List ℕ) : Type 0 where
  pub connected : s.connects ≡ true
  pub asked : s.sends ≡ true
  pub bytes : List ℕ
  pub received : s.receives ≡ some bytes
  pub frame : Decoded
  pub decoded : decode_frame bytes no_header 0 true 65536 ≡ some frame
  pub accepted : frame.result ≡ true
  pub payload_is : frame.payload ≡ some payload
  pub opcode_is : frame.hdr.opcode ≡ 2
  pub status_is : from_le (take 4 (drop 20 payload)) ≡ 0
  pub room : 334 ≤ length payload

-- A cache that took nothing, when the socket gave no record, or the record that the socket gave.
pub data Outcome (s : Socket) (c : BootMetaCache) (r : BootMetaCache × Bool) : Type 0 where
  kept : ((payload : List ℕ) → ¬ HasRecord s payload) → r ≡ (c, false) → Outcome s c r
  taken :
      (payload : List ℕ)
      → HasRecord s payload
      → r.0.meta ≡ take 310 (drop 24 payload)
      → r.0.valid ≡ r.1
      → r.1 ≡ ((from_le (take 4 r.0.meta) == 1212432973) && validate_crc r.0.meta)
      → Outcome s c r

-- the frame of the record is the one that is decoded
frame_is :
    (s : Socket) (payload bytes : List ℕ) (d : Decoded)
    → s.receives ≡ some bytes
    → decode_frame bytes no_header 0 true 65536 ≡ some d
    → (h : HasRecord s payload) → h.frame ≡ d
frame_is s payload bytes d got e h = some-injective _ _ (
    sym h.decoded
    ∙ ap (λ b. decode_frame b no_header 0 true 65536) (some-injective _ _ (sym h.received ∙ got))
    ∙ e)

-- the test of LoadFromServer on a frame and its payload
abbrev passes : Decoded → List ℕ → Bool
passes d payload =
    (d.hdr.opcode == opcode_byte block_read_rsp)
    && ((from_le (take 4 (drop 20 payload)) == 0) && leb (24 + 310) (length payload))

passes-true :
    (d : Decoded) (payload : List ℕ)
    → passes d payload ≡ true
    → (d.hdr.opcode ≡ 2) × (from_le (take 4 (drop 20 payload)) ≡ 0) × (334 ≤ length payload)
passes-true d payload h = ground (arith, h)

passes-false :
    (d : Decoded) (payload : List ℕ)
    → passes d payload ≡ false
    → d.hdr.opcode ≡ 2
    → from_le (take 4 (drop 20 payload)) ≡ 0
    → ¬ (334 ≤ length payload)
passes-false d payload h o z = ground (arith, h, o, z)

module _ (s : Socket) (c : BootMetaCache) (bytes : List ℕ) (d : Decoded) (con : s.connects ≡ true)
    (snd : s.sends ≡ true) (got : s.receives ≡ some bytes)
    (e : decode_frame bytes no_header 0 true 65536 ≡ some d) where
  frame_at : {payload : List ℕ} (h : HasRecord s payload) → h.frame ≡ d
  frame_at {payload} h = frame_is s payload bytes d got e h

  take_record-Outcome :
      (payload : List ℕ)
      → d.result ≡ true
      → d.payload ≡ some payload
      → Outcome s c (take_record c d.hdr payload)
  take_record-Outcome payload good at =
      if-split (λ r. Outcome s c r) (passes d payload)
        (λ met.
          let (o, z, l) = passes-true d payload met in
          taken payload
            (record {
              connected = con;
              asked = snd;
              bytes = bytes;
              received = got;
              frame = d;
              decoded = e;
              accepted = good;
              payload_is = at;
              opcode_is = o;
              status_is = z;
              room = l;
            })
            refl refl refl)
        (λ unmet.
          kept
            (λ p h.
              let same : p ≡ payload =
                some-injective _ _ (sym h.payload_is ∙ ap (λ x. x.payload) (frame_at h) ∙ at) in
              passes-false d payload unmet (ap (λ x. x.hdr.opcode) (sym (frame_at h)) ∙ h.opcode_is)
                (ap (λ x. from_le (take 4 (drop 20 x))) (sym same) ∙ h.status_is)
                (subst (λ x. 334 ≤ length x) same h.room))
            refl)

  use_answer-Outcome : Outcome s c (use_answer c d)
  use_answer-Outcome = by_payload d.payload refl
    where
      by_payload :
          (p : Option (List ℕ))
          → d.payload ≡ p
          → Outcome s c (elim p as (λ x. BootMetaCache × Bool) [
            | none ↦ (c, false)
            | some payload ↦ if d.result then take_record c d.hdr payload else (c, false)
          ])
      by_payload none at =
          kept
            (λ p h. none-ne-some _ (sym at ∙ ap (λ x. x.payload) (sym (frame_at h)) ∙ h.payload_is))
            refl
      by_payload (some payload) at =
          if-split (λ r. Outcome s c r) d.result (λ good. take_record-Outcome payload good at)
            (λ bad.
              kept (λ p h. true≢false (sym h.accepted ∙ ap (λ x. x.result) (frame_at h) ∙ bad))
                refl)

answered-Outcome :
    (s : Socket) (c : BootMetaCache)
    → s.connects ≡ true
    → s.sends ≡ true
    → (r : BootMetaCache × Bool) × (answered c s.receives ≡ some r) × Outcome s c r
answered-Outcome s c con snd = by_bytes s.receives refl
  where
    by_bytes :
        (o : Option (List ℕ))
        → s.receives ≡ o
        → (r : BootMetaCache × Bool) × (answered c o ≡ some r) × Outcome s c r
    by_bytes none got = ((c, false), refl, kept (λ p h. none-ne-some _ (sym got ∙ h.received)) refl)
    by_bytes (some bytes) got = elim (Option-cases (decode_frame bytes no_header 0 true 65536)) [
      | inl e ↦ absurd (decode_frame-answers bytes no_header 0 65536 true (omega arith) e)
      | inr d ↦ (
        use_answer c d.0,
        ap (λ o. o >>= λ x. some (use_answer c x)) d.1,
        use_answer-Outcome s c bytes d.0 con snd got d.1,
      )
    ]

-- Whatever the socket answers, LoadFromServer neither writes nor reads outside its buffers. If the
-- connection is made, the request is sent and the answer is a frame that DecodeFrame accepts, with the
-- opcode of an answer to a block request, status 0 and at least 334 bytes of payload, the cache takes
-- the 310 bytes from the payload's byte 24 on as its record; the cache is then valid, and the call
-- succeeds, exactly if this record has the magic number and its CRC is right. In any other case the
-- cache stays as it was and the call fails.
pub load_from_server-Outcome :
    (s : Socket) (c : BootMetaCache)
    → (r : BootMetaCache × Bool) × (load_from_server s c ≡ some r) × Outcome s c r
unfolding load_from_server
load_from_server-Outcome s c = by_connects s.connects refl
  where
    asked : Option (BootMetaCache × Bool)
    asked = request c.meta >>= λ sent.
        if not (sent.result && s.sends) then some (c, false) else answered c s.receives

    Good : Option (BootMetaCache × Bool) → Type 0
    Good o = (r : BootMetaCache × Bool) × (o ≡ some r) × Outcome s c r

    by_sends :
        (b : Bool)
        → s.connects ≡ true
        → s.sends ≡ b
        → Good (if not (true && b) then some (c, false) else answered c s.receives)
    by_sends true con snd = answered-Outcome s c con snd
    by_sends false con snd = ((c, false), refl, kept (λ p h. true≢false (sym h.asked ∙ snd)) refl)

    by_connects : (b : Bool) → s.connects ≡ b → Good (if not b then some (c, false) else asked)
    by_connects false con =
        ((c, false), refl, kept (λ p h. true≢false (sym h.connected ∙ con)) refl)
    by_connects true con =
        subst⁻¹
          (λ o. Good (
            o >>= λ sent.
            if not (sent.result && s.sends) then some (c, false) else answered c s.receives))
          (encode_frame-accepts 65 (request_header c.meta) (request_payload c.meta) (omega arith)
            (omega arith))
          (by_sends s.sends con refl)
