-- ===== src/Nt.antt =====
-- What the drivers share of the Windows kernel interface: NTSTATUS values, the status block of an
-- I/O request packet (IRP) and its completion.
use htkis_hyper_disk.Base.{ℕ, suc, Bool, true, false}

-- The NTSTATUS codes that the sources name; `informational` and `failure` stand for any other code
-- that the kernel returns, with the severity that NT_SUCCESS reads.
pub data Status : Type 0 where
  success pending : Status
  buffer_overflow not_supported no_such_device invalid_parameter : Status
  insufficient_resources device_not_ready buffer_too_small : Status
  invalid_device_request data_not_accepted revision_mismatch not_found : Status
  informational failure : ℕ → Status

-- NT_SUCCESS
abbrev pub nt_success : Status → Bool
nt_success success = true
nt_success pending = true
nt_success (informational _) = true
nt_success _ = false

-- `Irp->IoStatus`, and how often IoCompleteRequest was called on the packet.
pub record Irp : Type 0 where
  pub status : Status
  pub information : ℕ
  pub completions : ℕ

-- `Irp->IoStatus.Status = s; Irp->IoStatus.Information = n; IoCompleteRequest(Irp, ...)`
abbrev pub complete_with : Irp → Status → ℕ → Irp
complete_with i s n = record i { status = s; information = n; completions = suc i.completions }
