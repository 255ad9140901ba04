-- ===== src/StorPort.antt =====
-- driver/blk/storport_driver.c: the StorPort miniport. The sizes of the structures of Windows that it
-- fills are a parameter, since their headers are not part of the repository.
pub mod Requests
mod Tests
use htkis_hyper_disk.Base.{
  ℕ, zero, suc, ◌+◌, ◌-◌, ◌*◌, ◌/◌, ◌%◌, Bool, true, false, List, [], ◌∷◌, ◌++◌, ltb, ◌==◌,
  if◌then◌else◌, u32, sub32,
}

abbrev pub hd_disk_size_gb : ℕ
hd_disk_size_gb = 64

abbrev pub hd_max_transfer : ℕ
hd_max_transfer = 128 * 1024

pub record PortExtension : Type 0 where
  pub disk_size : ℕ
  pub sector_size : ℕ
  pub total_sectors : ℕ
  pub cylinders : ℕ
  pub tracks_per_cylinder : ℕ
  pub sectors_per_track : ℕ
  pub server_address : List ℕ
  pub server_port : ℕ
  pub initialized : Bool

-- the members of the configuration that HdPortHwFindAdapter sets to numbers
pub record PortConfiguration : Type 0 where
  pub maximum_number_of_logical_units : ℕ
  pub maximum_number_of_targets : ℕ
  pub number_of_buses : ℕ
  pub maximum_transfer_length : ℕ

abbrev pub port_sectors : ℕ
port_sectors = u32 (hd_disk_size_gb * 1024 * 1024 * 1024 / 512)

abbrev pub port_cylinders : ℕ
port_cylinders = port_sectors / (63 * 255)

-- HdPortHwFindAdapter: the extension and the configuration that it fills; "192.168.2.110" with its end
pub find_adapter : PortExtension × PortConfiguration
find_adapter = (
  record {
    disk_size = hd_disk_size_gb * 1024 * 1024 * 1024;
    sector_size = 512;
    total_sectors = port_sectors;
    cylinders = if port_cylinders == 0 then 1 else port_cylinders;
    tracks_per_cylinder = 255;
    sectors_per_track = 63;
    server_address = 49 ∷ 57 ∷ 50 ∷ 46 ∷ 49 ∷ 54 ∷ 56 ∷ 46 ∷ 50 ∷ 46 ∷ 49 ∷ 49 ∷ 48 ∷ 0 ∷ [];
    server_port = 9527;
    initialized = true;
  },
  record {
    maximum_number_of_logical_units = 1;
    maximum_number_of_targets = 1;
    number_of_buses = 1;
    maximum_transfer_length = hd_max_transfer;
  },
)

pub data SrbStatus : Type 0 where
  srb_pending srb_success srb_invalid_request srb_data_overrun : SrbStatus

pub data SrbFunction : Type 0 where
  execute_scsi io_control flush shutdown reset_device reset_bus release_device : SrbFunction
  other_function : SrbFunction

-- the first byte of the command
pub data ScsiOp : Type 0 where
  read write read_capacity read_capacity16 inquiry mode_sense test_unit_ready : ScsiOp
  request_sense start_stop_unit verify medium_removal other_op : ScsiOp

pub record PortSizes : Type 0 where
  pub inquiry_data_size : ℕ
  pub read_capacity_data_size : ℕ
  pub read_capacity16_data_size : ℕ
  pub sense_data_size : ℕ

-- What is written into the data buffer: the last block and the sector size with their bytes swapped,
-- the inquiry data, or sense data without an error.
pub data Reply : Type 0 where
  no_reply : Reply
  inquiry_data : Reply
  capacity : ℕ → ℕ → Reply
  capacity16 : ℕ → ℕ → Reply
  no_sense : Reply

-- The request block; `completions` are the statuses with which StorPortCompleteRequest was called.
pub record Srb : Type 0 where
  pub status : SrbStatus
  pub data_transfer_length : ℕ
  pub reply : Reply
  pub completions : List SrbStatus

-- the status is stored and the request completed with it
abbrev pub finish : Srb → SrbStatus → Srb
finish s status = record s { status = status; completions = s.completions ++ (status ∷ []) }

-- a success with so many bytes of a reply
abbrev pub answer : Srb → ℕ → Reply → Srb
answer s n reply = finish (record s { data_transfer_length = n; reply = reply }) srb_success

-- _byteswap_ulong and _byteswap_uint64, for words of n bytes; `high` are the bytes done so far
abbrev pub byteswap : ℕ → ℕ → ℕ → ℕ
byteswap zero x high = high
byteswap (suc n) x high = byteswap n (x / 256) (high * 256 + x % 256)

-- HdPortHandleInquiry
pub handle_inquiry : PortSizes → Srb → Srb
handle_inquiry z s =
    if ltb s.data_transfer_length z.inquiry_data_size
    then finish s srb_data_overrun
    else answer s z.inquiry_data_size inquiry_data

-- HdPortHandleReadCapacity
pub handle_read_capacity : PortSizes → PortExtension → Srb → Srb
handle_read_capacity z e s =
    let before = sub32 e.total_sectors 1 in
    let last_lba = if ltb 4294967295 before then 4294967295 else before in
    answer s z.read_capacity_data_size
      (capacity (byteswap 4 last_lba 0) (byteswap 4 e.sector_size 0))

-- HdPortHandleReadCapacity16
pub handle_read_capacity16 : PortSizes → PortExtension → Srb → Srb
handle_read_capacity16 z e s =
    answer s z.read_capacity16_data_size
      (capacity16 (byteswap 8 (sub32 e.total_sectors 1) 0) (byteswap 4 e.sector_size 0))

-- HdPortHandleReadWrite
pub handle_read_write : Srb → Srb
handle_read_write s = finish s srb_success

-- HdPortHandleModeSense, and the commands that HdPortHandleScsi answers itself
pub handle_mode_sense : Srb → Srb
handle_mode_sense s = finish (record s { data_transfer_length = 0 }) srb_success

-- HdPortHandleRequestSense
pub handle_request_sense : PortSizes → Srb → Srb
handle_request_sense z s = answer s z.sense_data_size no_sense

-- HdPortHandleScsi
pub handle_scsi : PortSizes → PortExtension → ScsiOp → Srb → Srb
handle_scsi z e read s = handle_read_write s
handle_scsi z e write s = handle_read_write s
handle_scsi z e read_capacity s = handle_read_capacity z e s
handle_scsi z e read_capacity16 s = handle_read_capacity16 z e s
handle_scsi z e inquiry s = handle_inquiry z s
handle_scsi z e mode_sense s = handle_mode_sense s
handle_scsi z e test_unit_ready s = finish (record s { data_transfer_length = 0 }) srb_success
handle_scsi z e request_sense s = handle_request_sense z s
handle_scsi z e start_stop_unit s = finish (record s { data_transfer_length = 0 }) srb_success
handle_scsi z e verify s = finish (record s { data_transfer_length = 0 }) srb_success
handle_scsi z e medium_removal s = finish (record s { data_transfer_length = 0 }) srb_success
handle_scsi z e other_op s = finish s srb_invalid_request

-- HdPortHwStartIo
pub start_io : PortSizes → PortExtension → SrbFunction → ScsiOp → Srb → Srb
start_io z e execute_scsi op s = handle_scsi z e op s
start_io z e io_control op s = finish s srb_invalid_request
start_io z e flush op s = finish s srb_success
start_io z e shutdown op s = finish s srb_success
start_io z e reset_device op s = finish s srb_success
start_io z e reset_bus op s = finish s srb_success
start_io z e release_device op s = finish s srb_success
start_io z e other_function op s = finish s srb_invalid_request
