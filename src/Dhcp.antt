-- ===== src/Dhcp.antt =====
-- client/boot_agent/dhcp_client.cpp: what DhcpClient::Discover makes of the answer that it receives, and
-- DhcpClient::ParseOptions. The sockets and the log are left out; `inet_ntop`, the function of the
-- system that writes an address as text, is a parameter. Texts are lists of their characters.
mod Offer
mod Tests
use mathlib.Core.Option
use htkis_hyper_disk.Base.{
  ℕ, zero, suc, Bool, true, false, not, List, [], ◌∷◌, Option, none, some, ltb, leb, ◌==◌,
  if◌then◌else◌, take, drop, length, ◌++◌,
}
use htkis_hyper_disk.Serial.{codes}

pub record DhcpOption : Type 0 where
  pub code : ℕ
  pub length : ℕ
  pub payload : List ℕ

-- the members of BootConfig that an answer can change
pub record BootConfig : Type 0 where
  pub server_address : List ℕ
  pub boot_script_url : List ℕ
  pub primary_server : List ℕ

-- DHCPOFFER, which the code compares with the operation of the packet
abbrev pub dhcp_offer : ℕ
dhcp_offer = 2

-- sizeof(DhcpPacket)
abbrev pub packet_size : ℕ
packet_size = 240

-- the options that Discover sends: the message type, the name of the host and the options that it asks
-- for; the loop over the name stops after eight characters
abbrev pub discover_options : List ℕ
discover_options =
    53 ∷ 1 ∷ 1 ∷ 12 ∷ 8 ∷ (take 8 (codes "HYPERDISK") ++ (55 ∷ 4 ∷ 1 ∷ 3 ∷ 6 ∷ 60 ∷ 255 ∷ []))

-- the loop of ParseOptions on the bytes from `offset` on; none when the fuel is used up
pub options_from : ℕ → List ℕ → Option (List DhcpOption)
options_from zero bytes = none
options_from (suc fuel) [] = some []
options_from (suc fuel) (code ∷ []) = some []
options_from (suc fuel) (code ∷ size ∷ bytes) =
    let rest = options_from fuel (if code == 0 then size ∷ bytes else drop size bytes) in
    if code == 255
    then some []
    else (if code == 0
        then rest
        else (if ltb (length bytes) size
            then some []
            else Option.map
                (λ options.
                  record { code = code; length = size; payload = take size bytes } ∷ options)
                rest))

-- ParseOptions: each round takes a byte at least
pub parse_options : List ℕ → Option (List DhcpOption)
parse_options bytes = options_from (suc (length bytes)) bytes

abbrev pub is_empty : List ℕ → Bool
is_empty [] = true
is_empty (x ∷ xs) = false

-- the switch on the code of an option
pub apply_option : (List ℕ → List ℕ) → BootConfig → DhcpOption → BootConfig
apply_option inet_ntop config opt =
    let ip = inet_ntop (take 4 opt.payload) in
    if (opt.code == 54)
    then (if leb 4 opt.length
        then record config {
          server_address = ip;
          primary_server = if is_empty config.primary_server then ip else config.primary_server;
        }
        else config)
    else (if opt.code == 67 then record config { boot_script_url = opt.payload } else config)

-- the loop over the options
abbrev pub apply_options : (List ℕ → List ℕ) → BootConfig → List DhcpOption → BootConfig
apply_options inet_ntop config [] = config
apply_options inet_ntop config (opt ∷ options) =
    apply_options inet_ntop (apply_option inet_ntop config opt) options

-- the end of Discover
abbrev pub finish : BootConfig → Bool × BootConfig
finish config = (not (is_empty config.server_address), config)

-- Discover from the answer of recvfrom on, which is none for a failure or an empty packet
pub receive_offer : (List ℕ → List ℕ) → BootConfig → Option (List ℕ) → Option (Bool × BootConfig)
receive_offer inet_ntop config none = some (false, config)
receive_offer inet_ntop config (some []) = some (false, config)
receive_offer inet_ntop config (some (op ∷ bytes)) =
    if ltb (length (op ∷ bytes)) packet_size
    then some (false, config)
    else (if not (op == dhcp_offer)
        then some (false, config)
        else Option.map (λ options. finish (apply_options inet_ntop config options))
            (parse_options (drop packet_size (op ∷ bytes))))
