-- ===== src/Dhcp/Tests.antt =====
-- An offer with padding, an option that is too short for an address, two servers and a boot file.
use htkis_hyper_disk.Base.{ℕ, ◌≡◌, refl, not, List, [], ◌∷◌, ◌++◌, some, replicate, false, arith}
use htkis_hyper_disk.Serial.{codes}
use htkis_hyper_disk.Dhcp.{
  DhcpOption, BootConfig, dhcp_offer, discover_options, options_from, parse_options, receive_offer,
  is_empty,
}
use htkis_hyper_disk.Dhcp.Offer.{
  Fields, done, field, AreOptions, options, wire, end_mark, Configured, receive_offer-wire,
}

abbrev of : ℕ → ℕ → List ℕ → DhcpOption
of code size payload = record { code = code; length = size; payload = payload }

abbrev config : BootConfig
config = record { server_address = []; boot_script_url = []; primary_server = [] }

abbrev fields : Fields
fields = field 2 (of 54 2 (9 ∷ 9 ∷ [])) (
    field 0 (of 54 4 (10 ∷ 0 ∷ 0 ∷ 1 ∷ []))
      (field 1 (of 54 5 (10 ∷ 0 ∷ 0 ∷ 2 ∷ 7 ∷ [])) (field 0 (of 67 1 (97 ∷ [])) done)))

fields-AreOptions : AreOptions fields
fields-AreOptions = (
  record { not_pad = omega arith; not_end = omega arith; length_agrees = refl },
  (
    record { not_pad = omega arith; not_end = omega arith; length_agrees = refl },
    (
      record { not_pad = omega arith; not_end = omega arith; length_agrees = refl },
      (record { not_pad = omega arith; not_end = omega arith; length_agrees = refl }, tt),
    ),
  ),
)

receive_offer-wire_example :
    (new : BootConfig) × (receive_offer
        (λ a. a)
        config
        (some (dhcp_offer ∷ (replicate 239 0 ++ wire fields (end_mark 3 (54 ∷ [])))))
      ≡ some (not (is_empty new.server_address), new))
    × Configured (λ a. a) config (options fields) new
receive_offer-wire_example =
    receive_offer-wire (λ a. a) config (replicate 239 0) (54 ∷ []) fields 3 refl fields-AreOptions

-- an option that is longer than the rest of the packet ends the list
cut_off : parse_options (12 ∷ 3 ∷ 104 ∷ 105 ∷ []) ≡ some []
unfolding parse_options options_from
cut_off = refl

-- padding between options is skipped, and what is behind the end mark
padded :
    parse_options (54 ∷ 1 ∷ 7 ∷ 0 ∷ 12 ∷ 0 ∷ 255 ∷ 1 ∷ [])
    ≡ some (of 54 1 (7 ∷ []) ∷ of 12 0 [] ∷ [])
unfolding parse_options options_from
padded = refl

-- the options that are sent, read back: the name of the host has lost its last letter
sent :
    parse_options discover_options
    ≡ some (of 53 1 (1 ∷ []) ∷ of 12 8 (codes "HYPERDIS") ∷ of 55 4 (1 ∷ 3 ∷ 6 ∷ 60 ∷ []) ∷ [])
unfolding parse_options options_from
sent = refl

-- an answer of another operation changes nothing
refused : receive_offer (λ a. a) config (some (1 ∷ replicate 239 0)) ≡ some (false, config)
unfolding receive_offer
refused = refl

-- so does a packet that is too short
short : receive_offer (λ a. a) config (some (2 ∷ [])) ≡ some (false, config)
unfolding receive_offer
short = refl
