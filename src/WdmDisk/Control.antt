-- ===== src/WdmDisk/Control.antt =====
-- The answers of the disk driver's device control and its reads and writes against their bounds.
use htkis_hyper_disk.Base.{
  ℕ, suc, ◌+◌, ◌≡◌, ◌<◌, ◌≤◌, refl, true, false, ltb, leb, if◌then◌else◌, Bool-cases, ◌||◌, ◌⊎◌,
  inl, inr, arith, u64,
}
use htkis_hyper_disk.Nt.{
  Status, success, invalid_parameter, buffer_too_small, nt_success, Irp, complete_with,
}
use htkis_hyper_disk.WdmDisk.{
  Device, transfer_packet, Sizes, Property, device_property, adapter_property, unknown_property,
  Code, get_drive_geometry, get_drive_geometry_ex, get_length_info, is_writable, media_removal,
  get_media_types_ex, get_device_number, get_partition_info_ex, query_device_name, query_unique_id,
  query_property, other_code, Reply, nothing, device_descriptor, adapter_descriptor, Answer, fill,
  answer, device_control,
}

-- An answer fits the output buffer, and one that failed writes nothing.
pub record Fits (output_length : ℕ) (a : Answer) : Type 0 where
  pub room : a.1 ≤ output_length
  pub refused : (nt_success a.0 ≡ true) ⊎ ((a.1 ≡ 0) × (a.2 ≡ nothing))

fill-Fits : (output n : ℕ) (s : Status) (reply : Reply) → Fits output (fill output n s reply)
fill-Fits output n s reply = elim (Bool-cases (ltb output n)) [
  | inl short ↦ simp short (record { room = omega arith; refused = inr (refl, refl) })
  | inr long ↦ simp long (record { room = ground arith; refused = inl refl })
]

empty-Fits : (output : ℕ) (s : Status) → Fits output (s, 0, nothing)
empty-Fits output s = record { room = omega arith; refused = inr (refl, refl) }

property-Fits :
    (z : Sizes) (d : Device) (p : Property) (input output : ℕ)
    → Fits output (answer z d (query_property p) input output)
unfolding answer
property-Fits z d p input output = elim (Bool-cases (ltb input z.property_query_size)) [
  | inl short ↦ simp short (empty-Fits output invalid_parameter)
  | inr long ↦ simp long (queried p)
]
  where
    queried :
        (p : Property)
        → Fits output (elim p [
          | device_property ↦
              fill output z.device_descriptor_size buffer_too_small
                (device_descriptor z.device_descriptor_size)
          | adapter_property ↦
              fill output z.adapter_descriptor_size buffer_too_small
                (adapter_descriptor z.adapter_descriptor_size 131072 32)
          | unknown_property ↦ (invalid_parameter, 0, nothing)
        ])
    queried device_property = fill-Fits output _ _ _
    queried adapter_property = fill-Fits output _ _ _
    queried unknown_property = empty-Fits output _

answer-Fits :
    (z : Sizes) (d : Device) (c : Code) (input output : ℕ) → Fits output (answer z d c input output)
unfolding answer
answer-Fits z d get_drive_geometry input output = fill-Fits output _ _ _
answer-Fits z d get_drive_geometry_ex input output = fill-Fits output _ _ _
answer-Fits z d get_length_info input output = fill-Fits output _ _ _
answer-Fits z d is_writable input output = empty-Fits output _
answer-Fits z d media_removal input output = empty-Fits output _
answer-Fits z d get_media_types_ex input output = fill-Fits output _ _ _
answer-Fits z d get_device_number input output = fill-Fits output _ _ _
answer-Fits z d (query_property p) input output = property-Fits z d p input output
answer-Fits z d get_partition_info_ex input output = fill-Fits output _ _ _
answer-Fits z d query_device_name input output = fill-Fits output _ _ _
answer-Fits z d query_unique_id input output = fill-Fits output _ _ _
answer-Fits z d other_code input output = empty-Fits output _

-- What device control makes of a packet.
pub record IsBounded (i : Irp) (output_length : ℕ) (after : Irp × Status × Reply) : Type 0 where
  pub once : after.0.completions ≡ suc i.completions
  pub returned : after.0.status ≡ after.1
  pub room : after.0.information ≤ output_length
  pub refused : (nt_success after.1 ≡ true) ⊎ ((after.0.information ≡ 0) × (after.2 ≡ nothing))

-- For every control code, all buffer lengths and all sizes of Windows' structures,
-- HdBlkDispatchDeviceControl completes the packet once with the status that it returns, never reports
-- more bytes than the output buffer has, and when it fails it reports no bytes and writes nothing.
device_control-IsBounded :
    (z : Sizes) (d : Device) (c : Code) (input_length output_length : ℕ) (i : Irp)
    → IsBounded i output_length (device_control z d c input_length output_length i)
unfolding device_control
device_control-IsBounded z d c input output i =
    let f = answer-Fits z d c input output in
    record { once = refl; returned = refl; room = f.room; refused = f.refused }

-- For a byte offset below 2 ^ 64, a length below 2 ^ 32 and a disk of 2 ^ 32 bytes or more,
-- HdBlkDispatchRead and HdBlkDispatchWrite complete the request with success and its length when it lies
-- in the disk, or when its end, which begins past the disk, is not below 2 ^ 64; and with
-- STATUS_INVALID_PARAMETER when neither holds.
transfer_packet_lem :
    (d : Device) (byte_offset length : ℕ) (i : Irp)
    → byte_offset < 18446744073709551616
    → length < 4294967296
    → 4294967296 ≤ d.disk_size
    → d.disk_size < 18446744073709551616
    → transfer_packet d byte_offset length i ≡ (
        if leb (byte_offset + length) d.disk_size || leb 18446744073709551616 (byte_offset + length)
        then (complete_with i success length, success)
        else (complete_with i invalid_parameter 0, invalid_parameter))
unfolding transfer_packet
transfer_packet_lem d offset length i ho hl low high =
    elim (Bool-cases
      (leb (offset + length) d.disk_size || leb 18446744073709551616 (offset + length))) [
        | inl ok ↦
            let test : ltb d.disk_size (u64 (offset + length)) ≡ false =
              in_range d.disk_size (offset + length) low (omega arith) ok in
            simp (test, ok) refl
        | inr bad ↦
            let test : ltb d.disk_size (u64 (offset + length)) ≡ true =
              out_of_range d.disk_size (offset + length) bad in
            simp (test, bad) refl
      ]
  where
    in_range :
        (size end : ℕ)
        → 4294967296 ≤ size
        → end < 18446744078004518912
        → (leb end size || leb 18446744073709551616 end) ≡ true
        → ltb size (u64 end) ≡ false
    in_range size end low small h = elim (Bool-cases (leb end size)) [
      | inl inside ↦
          let le : end ≤ size = ground arith in
          let below : u64 end ≤ size = omega (arith, le) in ground (arith, below)
      | inr past ↦
          let wraps : 18446744073709551616 ≤ end = ground (arith, h, past) in
          let below : u64 end ≤ size = omega (arith, wraps, small, low) in ground (arith, below)
    ]

    out_of_range :
        (size end : ℕ)
        → (leb end size || leb 18446744073709551616 end) ≡ false
        → ltb size (u64 end) ≡ true
    out_of_range size end h =
        let past : size < end = ground (arith, h) in
        let whole : end < 18446744073709551616 = ground (arith, h) in
        let same : u64 end ≡ end = omega (arith, whole) in rw same (ground (arith, past))
