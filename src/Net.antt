-- ===== src/Net.antt =====
-- driver/net: the connection table of the network driver (net_connect.c, net_driver.c), its requests
-- (net_wsk.c, net_heartbeat.c) and its frames (net_frame.c, with the layout of net_driver.h).
-- The spin lock makes each update of the table one step; events and lock objects have no field here.
pub mod Connections
pub mod Disconnect
pub mod Cleanup
pub mod Requests
pub mod Frame
mod Tests
use htkis_hyper_disk.Base.{
  ℕ, zero, suc, ◌+◌, ◌/◌, ◌%◌, ◌*◌, Bool, true, false, not, ◌&&◌, ◌||◌, List, [], ◌∷◌, ◌++◌, Option,
  none, some, ltb, leb, ◌==◌, if◌then◌else◌, set, get_elem?, replicate, u16, u32, sub32,
}
use htkis_hyper_disk.Nt.{Status, success, insufficient_resources, invalid_parameter}

abbrev pub max_connections : ℕ
max_connections = 64

-- HD_NET_CONNECTION: the fields that the code reads or sets
pub record Connection : Type 0 where
  pub is_active : Bool
  pub retry_count : ℕ
  pub sin_family : ℕ
  pub sin_port : ℕ

-- HD_NET_EXTENSION
pub record Net : Type 0 where
  pub connection_count : ℕ
  pub connections : List Connection
  pub next_frame_id : ℕ

abbrev pub zeroed : Connection
zeroed = record { is_active = false; retry_count = 0; sin_family = 0; sin_port = 0 }

-- HdNetInitialize
pub initialize : Net
initialize = record {
  connection_count = 0;
  connections = replicate max_connections zeroed;
  next_frame_id = 1;
}

-- RtlUshortByteSwap
abbrev pub byte_swap16 : ℕ → ℕ
byte_swap16 x = x % 256 * 256 + x / 256 % 256

-- What HdNetConnect writes into a free slot; the address itself is zeroed there.
pub opened : ℕ → Connection
opened port = record {
  is_active = true;
  retry_count = 0;
  sin_family = 2;
  sin_port = byte_swap16 port;
}

-- The loop of HdNetConnect over the slots from index i on: the table with the first free slot taken,
-- and its index, if there is one.
pub connect_from : ℕ → List Connection → ℕ → List Connection × Option ℕ
connect_from port [] i = ([], none)
connect_from port (c ∷ cs) i =
    let (cs', found) = connect_from port cs (i + 1) in
    if c.is_active then (c ∷ cs', found) else (opened port ∷ cs, some i)

-- HdNetConnect: the status, the index that goes through `ConnIdx` if it is written, the new state
pub connect : Net → ℕ → Status × Option ℕ × Net
connect n port =
    let (cs, found) = connect_from port n.connections 0 in
    elim found [
      | none ↦ (insufficient_resources, none, n)
      | some i ↦ (
        success,
        some i,
        record n { connections = cs; connection_count = u32 (n.connection_count + 1) },
      )
    ]

abbrev pub deactivate : List Connection → ℕ → List Connection
deactivate [] i = []
deactivate (c ∷ cs) zero = record c { is_active = false } ∷ cs
deactivate (c ∷ cs) (suc i) = c ∷ deactivate cs i

-- HdNetDisconnect
pub disconnect : Net → ℕ → Status × Net
disconnect n i = if leb max_connections i then (invalid_parameter, n) else (
  success,
  record n {
    connections = deactivate n.connections i;
    connection_count = sub32 n.connection_count 1;
  },
)

abbrev pub is_active_at : List Connection → ℕ → Bool
is_active_at [] i = false
is_active_at (c ∷ cs) zero = c.is_active
is_active_at (c ∷ cs) (suc i) = is_active_at cs i

-- The loop of HdNetCleanup with `left` slots to go, at index i.
pub cleanup_from : ℕ → ℕ → Net → Net
cleanup_from zero i n = n
cleanup_from (suc left) i n =
    cleanup_from left (i + 1) (if is_active_at n.connections i then (disconnect n i).1 else n)

-- HdNetCleanup
pub cleanup : Net → Net
cleanup n = cleanup_from max_connections 0 n

-- HD_BLOCK_REQUEST and the header of HD_NET_FRAME_HEADER, without its reserved bytes
pub record Request : Type 0 where
  pub image_id : ℕ
  pub block_offset : ℕ
  pub block_count : ℕ
  pub layer_id : ℕ
  pub is_write : ℕ

pub record Header : Type 0 where
  pub magic : ℕ
  pub version : ℕ
  pub frame_type : ℕ
  pub flags : ℕ
  pub frame_id : ℕ
  pub payload_len : ℕ
  pub image_id : ℕ
  pub block_offset : ℕ
  pub block_count : ℕ
  pub layer_id : ℕ

abbrev pub hd_magic : ℕ
hd_magic = 0x48444B31

abbrev pub hd_version : ℕ
hd_version = 1

abbrev pub usable : Net → ℕ → Bool
usable n i = not (leb max_connections i) && is_active_at n.connections i

-- HdNetSendBlockRequest: the status, the header that it builds, and the state with the next frame id.
-- The header is built and not sent.
pub send_block_request : Net → ℕ → Request → ℕ → Status × Option Header × Net
send_block_request n i q data_len =
    let frame_id = u32 (n.next_frame_id + 1) in
    let header : Header = record {
      magic = hd_magic;
      version = hd_version;
      frame_type = if q.is_write == 0 then 0x01 else 0x03;
      flags = 0;
      frame_id = frame_id;
      payload_len = data_len;
      image_id = q.image_id;
      block_offset = q.block_offset;
      block_count = q.block_count;
      layer_id = q.layer_id;
    } in
    if usable n i
    then (success, some header, record n { next_frame_id = frame_id })
    else (invalid_parameter, none, n)

-- HdNetSendHeartbeat
pub send_heartbeat : Net → ℕ → ℕ → Status × Option Header × Net
send_heartbeat n i terminal_id =
    let frame_id = u32 (n.next_frame_id + 1) in
    let header : Header = record {
      magic = hd_magic;
      version = hd_version;
      frame_type = 0x10;
      flags = 0;
      frame_id = frame_id;
      payload_len = 0;
      image_id = terminal_id;
      block_offset = 0;
      block_count = 0;
      layer_id = 0;
    } in
    if usable n i
    then (success, some header, record n { next_frame_id = frame_id })
    else (invalid_parameter, none, n)

-- HdNetRecvBlockResponse, which leaves its buffers alone
pub recv_block_response : Net → ℕ → Status
recv_block_response n i = if usable n i then success else invalid_parameter
