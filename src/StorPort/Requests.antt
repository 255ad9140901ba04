-- ===== src/StorPort/Requests.antt =====
-- How the miniport serves any request.
use mathlib.Core.Path.{subst⁻¹}
use htkis_hyper_disk.Base.{
  ℕ, ◌≡◌, ◌≤◌, refl, Bool, true, false, [], ◌∷◌, ltb, ltb-false, if◌then◌else◌, ◌⊎◌, inl, inr,
  Bool-cases, arith,
}
use htkis_hyper_disk.StorPort.{
  PortExtension, SrbStatus, srb_pending, srb_success, srb_invalid_request, srb_data_overrun,
  SrbFunction, execute_scsi, io_control, flush, shutdown, reset_device, reset_bus, release_device,
  other_function, ScsiOp, read, write, read_capacity, read_capacity16, inquiry, mode_sense,
  test_unit_ready, request_sense, start_stop_unit, verify, medium_removal, other_op, PortSizes,
  Reply, no_reply, inquiry_data, capacity, capacity16, no_sense, Srb, finish, answer,
  handle_inquiry, handle_read_capacity, handle_read_capacity16, handle_read_write,
  handle_mode_sense, handle_request_sense, handle_scsi, start_io,
}

-- how many bytes a reply takes
pub reply_size : PortSizes → Reply → ℕ
reply_size z no_reply = 0
reply_size z inquiry_data = z.inquiry_data_size
reply_size z (capacity last size) = z.read_capacity_data_size
reply_size z (capacity16 last size) = z.read_capacity16_data_size
reply_size z no_sense = z.sense_data_size

-- the commands whose handlers do not look at the length of the buffer
pub unguarded : ScsiOp → Bool
unguarded read_capacity = true
unguarded read_capacity16 = true
unguarded request_sense = true
unguarded _ = false

abbrev is_pending : SrbStatus → Bool
is_pending srb_pending = true
is_pending _ = false

-- a request with a buffer of n bytes
abbrev pub new_srb : ℕ → Srb
new_srb n = record {
  status = srb_pending;
  data_transfer_length = n;
  reply = no_reply;
  completions = [];
}

-- The request is completed once, with the status that it holds then, which is not pending; and what was
-- written fits the buffer, or the command is one whose handler does not look.
pub record Served (z : PortSizes) (op : ScsiOp) (n : ℕ) (t : Srb) : Type 0 where
  pub once : t.completions ≡ t.status ∷ []
  pub final : is_pending t.status ≡ false
  pub fits : (reply_size z t.reply ≤ n) ⊎ (unguarded op ≡ true)

silent :
    (z : PortSizes) (op : ScsiOp) (n k : ℕ) (status : SrbStatus)
    → is_pending status ≡ false
    → Served z op n (finish (record (new_srb n) { data_transfer_length = k }) status)
unfolding reply_size
silent z op n k status final = record { once = refl; final = final; fits = inl (omega arith) }

inquiry-Served : (z : PortSizes) (n : ℕ) → Served z inquiry n (handle_inquiry z (new_srb n))
unfolding handle_inquiry reply_size
inquiry-Served z n = elim (Bool-cases (ltb n z.inquiry_data_size)) [
  | inl e ↦
      subst⁻¹ (λ b. Served z inquiry n (choose b)) e
        (record { once = refl; final = refl; fits = inl (omega arith) })
  | inr e ↦
      subst⁻¹ (λ b. Served z inquiry n (choose b)) e
        (record { once = refl; final = refl; fits = inl (ltb-false n z.inquiry_data_size e) })
]
  where
    choose : Bool → Srb
    choose b =
        if b
        then finish (new_srb n) srb_data_overrun
        else answer (new_srb n) z.inquiry_data_size inquiry_data

handle_scsi-Served :
    (z : PortSizes) (e : PortExtension) (op : ScsiOp) (n : ℕ)
    → Served z op n (handle_scsi z e op (new_srb n))
unfolding handle_scsi handle_read_write handle_read_capacity handle_read_capacity16
    handle_mode_sense handle_request_sense unguarded
handle_scsi-Served z e read n = silent z read n n srb_success refl
handle_scsi-Served z e write n = silent z write n n srb_success refl
handle_scsi-Served z e read_capacity n = record { once = refl; final = refl; fits = inr refl }
handle_scsi-Served z e read_capacity16 n = record { once = refl; final = refl; fits = inr refl }
handle_scsi-Served z e inquiry n = inquiry-Served z n
handle_scsi-Served z e mode_sense n = silent z mode_sense n 0 srb_success refl
handle_scsi-Served z e test_unit_ready n = silent z test_unit_ready n 0 srb_success refl
handle_scsi-Served z e request_sense n = record { once = refl; final = refl; fits = inr refl }
handle_scsi-Served z e start_stop_unit n = silent z start_stop_unit n 0 srb_success refl
handle_scsi-Served z e verify n = silent z verify n 0 srb_success refl
handle_scsi-Served z e medium_removal n = silent z medium_removal n 0 srb_success refl
handle_scsi-Served z e other_op n = silent z other_op n n srb_invalid_request refl

-- Whatever the function and the command of a new request with a buffer of n bytes: it is completed
-- exactly once, with the status that it holds at the end, which is not pending. What is written into
-- the buffer is at most n bytes, unless the command is READ CAPACITY (10 or 16) or REQUEST SENSE, whose
-- handlers do not look at the length.
pub start_io-Served :
    (z : PortSizes) (e : PortExtension) (f : SrbFunction) (op : ScsiOp) (n : ℕ)
    → Served z op n (start_io z e f op (new_srb n))
unfolding start_io
start_io-Served z e execute_scsi op n = handle_scsi-Served z e op n
start_io-Served z e io_control op n = silent z op n n srb_invalid_request refl
start_io-Served z e flush op n = silent z op n n srb_success refl
start_io-Served z e shutdown op n = silent z op n n srb_success refl
start_io-Served z e reset_device op n = silent z op n n srb_success refl
start_io-Served z e reset_bus op n = silent z op n n srb_success refl
start_io-Served z e release_device op n = silent z op n n srb_success refl
start_io-Served z e other_function op n = silent z op n n srb_invalid_request refl
