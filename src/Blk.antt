-- ===== src/Blk.antt =====
-- driver/blk: the block device driver. Its dispatch routines (blk_driver.c, blk_ioctl.c, blk_io.c,
-- blk_request.c) take the device extension and the packet and give both back with the status they
-- return; in a child module each stand its fast I/O (blk_fastio.c), pool quota (blk_pool.c) and locks
-- (blk_cc_mm_sync.c). A result none is a division by zero, which stops the kernel.
pub mod Packets
pub mod Geometry
pub mod FastIo
pub mod Pool
pub mod Locks
mod Tests
use htkis_hyper_disk.Base.{
  ℕ, zero, suc, ◌+◌, ◌*◌, ◌/◌, ◌%◌, Bool, true, false, not, ◌&&◌, Option, none, some, ltb, leb,
  ◌==◌, if◌then◌else◌, u32, u64, sub32, ◌>>=◌,
}
use htkis_hyper_disk.Nt.{
  Status, success, pending, buffer_too_small, invalid_device_request, nt_success, Irp,
  complete_with,
}
use htkis_hyper_disk.Net.{Request}

-- HD_BLK_EXTENSION without its locks, ChildId and PendingIoCount, which `shutdown` is given as what it
-- sees. The LONG counter is a word of 32 bits.
pub record Extension : Type 0 where
  pub image_id : ℕ
  pub disk_size : ℕ
  pub block_size : ℕ
  pub block_count : ℕ
  pub layer_id : ℕ
  pub is_started : Bool
  pub open_handle_count : ℕ
  pub io_event : Bool
  pub shutdown_event : Bool
  pub pool_quota : ℕ
  pub pool_usage : ℕ

-- what a dispatch routine leaves and returns
pub record Done : Type 0 where
  pub extension : Extension
  pub packet : Irp
  pub returned : Status

-- `Irp->IoStatus.Status = s; Irp->IoStatus.Information = n; IoCompleteRequest(...); return s`
abbrev pub finish : Extension → Irp → Status → ℕ → Done
finish e i s n = record { extension = e; packet = complete_with i s n; returned = s }

-- HdBlkDispatchCreate and HdBlkDispatchClose
pub create : Extension → Irp → Done
create e i = finish (record e { open_handle_count = u32 (e.open_handle_count + 1) }) i success 0

pub close : Extension → Irp → Done
close e i = finish (record e { open_handle_count = sub32 e.open_handle_count 1 }) i success 0

-- HdBlkDispatchFlushBuffers. The event is signalled, so the wait is over at once; it takes the signal
-- back when the event is a synchronization event.
pub flush_buffers : Bool → Extension → Irp → Done
flush_buffers synchronization e i = finish (record e { io_event = not synchronization }) i success 0

-- The loop of HdBlkDispatchShutdown from its k-th look at PendingIoCount, where `busy k` says whether
-- that is positive.
pub drain : ℕ → (ℕ → Bool) → ℕ → Bool
drain zero busy k = false
drain (suc fuel) busy k = let rest = drain fuel busy (suc k) in if busy k then rest else true

-- HdBlkDispatchShutdown; none when the loop has not ended within the fuel
pub shutdown : ℕ → (ℕ → Bool) → Extension → Irp → Option Done
shutdown fuel busy e i =
    if drain fuel busy 0
    then some (finish (record e { shutdown_event = true; is_started = false }) i success 0)
    else none

-- The information class of a query: its size in bytes, or a class that is not served.
pub data QueryClass : Type 0 where
  standard_information basic_information other_information : QueryClass

-- FILE_STANDARD_INFORMATION, which blk_fastio.c fills too
pub record StandardInformation : Type 0 where
  pub allocation_size : ℕ
  pub end_of_file : ℕ
  pub number_of_links : ℕ
  pub delete_pending : Bool
  pub directory : Bool

abbrev pub standard_of : Extension → StandardInformation
standard_of e = record {
  allocation_size = e.disk_size;
  end_of_file = e.disk_size;
  number_of_links = 1;
  delete_pending = false;
  directory = false;
}

-- the sizes of FILE_STANDARD_INFORMATION and FILE_BASIC_INFORMATION on a 64-bit system
abbrev pub size_of_standard : ℕ
size_of_standard = 24

abbrev pub size_of_basic : ℕ
size_of_basic = 40

-- HdBlkDispatchQueryInformation, with the standard information that it writes
pub query_information : QueryClass → Extension → Irp → Done × Option StandardInformation
query_information standard_information e i =
    (finish e i success size_of_standard, some (standard_of e))
query_information basic_information e i = (finish e i success size_of_basic, none)
query_information other_information e i = (finish e i success 0, none)

-- What a set request carries.
pub data SetClass : Type 0 where
  allocation_information end_of_file_information : ℕ → SetClass
  unknown_information : SetClass

-- the new size, with the count of blocks as a ULONG
pub resize : ℕ → Extension → Option Extension
resize size e =
    if e.block_size == 0
    then none
    else some (record e { disk_size = size; block_count = u32 (size / e.block_size) })

-- HdBlkDispatchSetInformation
pub set_information : SetClass → Extension → Irp → Option Done
set_information (allocation_information size) e i =
    resize size e >>= λ e'. some (finish e' i success 0)
set_information (end_of_file_information size) e i =
    resize size e >>= λ e'. some (finish e' i success 0)
set_information unknown_information e i = some (finish e i success 0)

-- the minor functions that HdBlkDispatchPnp looks at
pub data PnpMinor : Type 0 where
  start_device remove_device query_device_relations other_minor : PnpMinor

-- HdBlkDispatchPnp
pub pnp : PnpMinor → Extension → Irp → Done
pnp start_device e i = finish (record e { is_started = true }) i success 0
pnp remove_device e i = finish (record e { is_started = false }) i success 0
pnp query_device_relations e i = finish e i success 0
pnp other_minor e i = finish e i success 0

-- HD_DEVICE_CONFIG, as far as it is used, and its size; the size of HD_BLOCK_RESPONSE
pub record DeviceConfig : Type 0 where
  pub image_id : ℕ
  pub disk_size : ℕ
  pub block_size : ℕ
  pub block_count : ℕ
  pub layer_id : ℕ

abbrev pub size_of_config : ℕ
size_of_config = 96

abbrev pub size_of_response : ℕ
size_of_response = 24

-- the control codes of HdBlkDispatchIoctl: IOCTL_HD_SET_CONFIG with the length and the content of its
-- buffer, IOCTL_HD_GET_STATUS, and any other
pub data Control : Type 0 where
  set_config : ℕ → DeviceConfig → Control
  get_status other_control : Control

-- HdBlkDispatchIoctl, with the Status field that it writes into the response
pub ioctl : Control → Extension → Irp → Done × Option ℕ
ioctl (set_config input_length config) e i =
    if ltb input_length size_of_config then (finish e i buffer_too_small 0, none) else (
      finish
          (record e {
            image_id = config.image_id;
            disk_size = config.disk_size;
            block_size = config.block_size;
            block_count = config.block_count;
            layer_id = config.layer_id;
            is_started = true;
          })
          i success 0,
      none,
    )
ioctl get_status e i =
    (finish e i success size_of_response, some (if e.is_started then 0 else 4294967295))
ioctl other_control e i = (finish e i invalid_device_request 0, none)

-- HdBlkSubmitBlockRequest
pub submit_block_request : Extension → Request → Status
submit_block_request e request = success

-- the request of HdBlkDispatchRead (is_write 0) and of HdBlkDispatchWrite (1); a byte offset is not
-- negative
abbrev pub block_request : ℕ → Extension → ℕ → ℕ → Request
block_request is_write e byte_offset length = record {
  image_id = e.image_id;
  block_offset = byte_offset / e.block_size;
  block_count = length / e.block_size;
  layer_id = e.layer_id;
  is_write = is_write;
}

-- HdBlkDispatchRead and HdBlkDispatchWrite
pub transfer : ℕ → Extension → Irp → ℕ → ℕ → Option Done
transfer is_write e i byte_offset length =
    let status = submit_block_request e (block_request is_write e byte_offset length) in
    if e.block_size == 0
    then none
    else some (
        if nt_success status
        then record { extension = e; packet = i; returned = pending }
        else finish e i status 0)
