-- ===== src/Blk/FastIo.antt =====
-- driver/blk/blk_fastio.c against the packets of blk_driver.c and blk_ioctl.c. A routine gives none
-- where it returns FALSE, and the status block that it filled where it returns TRUE.
use htkis_hyper_disk.Base.{ℕ, ◌≡◌, refl, Option, none, some, if◌then◌else◌}
use htkis_hyper_disk.Nt.{Status, success, Irp}
use htkis_hyper_disk.Blk.{
  Extension, Done, StandardInformation, standard_of, size_of_standard, size_of_basic,
  standard_information, basic_information, query_information,
}

-- IO_STATUS_BLOCK
pub record StatusBlock : Type 0 where
  pub status : Status
  pub information : ℕ

-- HdBlkFastIoRead and HdBlkFastIoWrite, which are alike
pub fast_read : Extension → ℕ → Option StatusBlock
fast_read e length =
    if e.is_started then some (record { status = success; information = length }) else none

pub fast_write : Extension → ℕ → Option StatusBlock
fast_write e length =
    if e.is_started then some (record { status = success; information = length }) else none

-- HdBlkFastIoQueryBasicInfo and HdBlkFastIoQueryStandardInfo
pub fast_query_basic_info : StatusBlock
fast_query_basic_info = record { status = success; information = size_of_basic }

pub fast_query_standard_info : Extension → StatusBlock × StandardInformation
fast_query_standard_info e =
    (record { status = success; information = size_of_standard }, standard_of e)

-- HdBlkFastIoDeviceControl returns FALSE for every code.
pub fast_device_control : Option StatusBlock
fast_device_control = none

-- what a packet says when it is completed
abbrev pub status_of : Done → StatusBlock
status_of d = record { status = d.packet.status; information = d.packet.information }

-- The fast queries answer what HdBlkDispatchQueryInformation answers for the same class, with the same
-- standard information.
pub fast_query-query_information :
    (e : Extension) (i : Irp)
    → (fast_query_basic_info ≡ status_of (query_information basic_information e i).0)
      × ((fast_query_standard_info e).0 ≡ status_of (query_information standard_information e i).0)
      × (some (fast_query_standard_info e).1 ≡ (query_information standard_information e i).1)
unfolding fast_query_basic_info fast_query_standard_info query_information
fast_query-query_information e i = (refl, refl, refl)
