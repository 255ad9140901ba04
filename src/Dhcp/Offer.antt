-- ===== src/Dhcp/Offer.antt =====
-- The options of an answer on the wire, and what Discover makes of such an answer.
use mathlib.Core.Option
use htkis_hyper_disk.Base.{
  ℕ, zero, suc, ◌≡◌, ◌≢◌, ◌≤◌, ◌<◌, refl, sym, ap, ◌∙◌, false, List, [], ◌∷◌, ◌++◌, Option, some,
  ◌==◌, ==_ne, ◌&&◌, not, leb, ltb, if◌then◌else◌, take, drop, length, length-append, length-drop,
  if-elim, replicate, take-append_self, drop-append_self, arith,
}
use htkis_hyper_disk.Dhcp.{
  DhcpOption, BootConfig, dhcp_offer, packet_size, options_from, parse_options, apply_options,
  finish, receive_offer, is_empty, apply_option,
}

-- An option that is neither padding nor the end mark, with its length.
pub record IsOption (o : DhcpOption) : Type 0 where
  pub not_pad : o.code ≢ 0
  pub not_end : o.code ≢ 255
  pub length_agrees : o.length ≡ length o.payload

-- options, each behind as many bytes of padding as the number says
pub data Fields : Type 0 where
  done : Fields
  field : ℕ → DhcpOption → Fields → Fields

pub options : Fields → List DhcpOption
options done = []
options (field pads o fs) = o ∷ options fs

abbrev pub AreOptions : Fields → Type 0
AreOptions done = Unit {0}
AreOptions (field pads o fs) = IsOption o × AreOptions fs

-- the bytes of such options, and of what follows
pub wire : Fields → List ℕ → List ℕ
wire done end = end
wire (field pads o fs) end = replicate pads 0 ++ (o.code ∷ o.length ∷ (o.payload ++ wire fs end))

-- Padding is skipped, with a round of the loop for each byte.
options_from-pads :
    (pads fuel code : ℕ) (bytes : List ℕ) {r : Option (List DhcpOption)}
    → ((f : ℕ) → suc (length bytes) < f → options_from f (code ∷ bytes) ≡ r)
    → length (replicate pads 0 ++ (code ∷ bytes)) < fuel
    → options_from fuel (replicate pads 0 ++ (code ∷ bytes)) ≡ r
unfolding options_from
options_from-pads zero fuel code bytes h lt = h fuel lt
options_from-pads (suc pads) zero code bytes h lt = absurd (omega arith)
options_from-pads (suc zero) (suc fuel) code bytes h lt =
    options_from-pads zero fuel code bytes h (omega arith)
options_from-pads (suc (suc pads)) (suc fuel) code bytes h lt =
    options_from-pads (suc pads) fuel code bytes h (omega arith)

options_from-end :
    (fuel : ℕ) (tail : List ℕ) → suc (length tail) < fuel → options_from fuel (255 ∷ tail) ≡ some []
unfolding options_from
options_from-end zero tail lt = absurd (omega arith)
options_from-end (suc fuel) [] lt = refl
options_from-end (suc fuel) (x ∷ tail) lt = refl

not_short : (n : ℕ) (xs : List ℕ) → n ≤ length xs → ltb (length xs) n ≡ false
not_short n xs h = ground (arith, h)

-- One option is taken, with a round of the loop.
options_from-option :
    (fuel : ℕ) (o : DhcpOption) (bytes : List ℕ)
    → IsOption o
    → options_from (suc fuel) (o.code ∷ o.length ∷ (o.payload ++ bytes))
      ≡ Option.map (λ os. o ∷ os) (options_from fuel bytes)
unfolding options_from
options_from-option fuel o bytes v =
    rw
      (
        ==_ne o.code 255 v.not_end,
        ==_ne o.code 0 v.not_pad,
        v.length_agrees,
        drop-append_self o.payload bytes,
        take-append_self o.payload bytes,
        not_short (length o.payload) (o.payload ++ bytes)
            (omega (arith, length-append o.payload bytes)),
      )
      refl

-- An option in front of bytes that the loop reads to its end.
option_first :
    (o : DhcpOption)
    → IsOption o
    → (bytes : List ℕ) {os : List DhcpOption}
    → ((f : ℕ) → length bytes < f → options_from f bytes ≡ some os)
    → (fuel : ℕ) → suc (suc (length (o.payload ++ bytes))) < fuel
    → options_from fuel (o.code ∷ o.length ∷ (o.payload ++ bytes)) ≡ some (o ∷ os)
option_first o v bytes h zero lt = absurd (omega arith)
option_first o v bytes h (suc fuel) lt =
    options_from-option fuel o bytes v
    ∙ ap (Option.map (λ os. o ∷ os)) (h fuel (omega (arith, length-append o.payload bytes)))

-- what the end mark is followed by is not read
pub end_mark : ℕ → List ℕ → List ℕ
end_mark pads tail = replicate pads 0 ++ (255 ∷ tail)

-- With more fuel than bytes the loop gives the options that the bytes stand for.
options_from-wire :
    (fs : Fields) (pads : ℕ) (tail : List ℕ)
    → AreOptions fs
    → (fuel : ℕ) → length (wire fs (end_mark pads tail)) < fuel
    → options_from fuel (wire fs (end_mark pads tail)) ≡ some (options fs)
unfolding wire options end_mark
options_from-wire done pads tail vs fuel lt =
    options_from-pads pads fuel 255 tail (λ f more. options_from-end f tail more) lt
options_from-wire (field n o fs) pads tail (v, vs) fuel lt =
    options_from-pads n fuel o.code (o.length ∷ (o.payload ++ wire fs (end_mark pads tail)))
      (option_first o v (wire fs (end_mark pads tail)) (options_from-wire fs pads tail vs)) lt

-- the addresses that options 54 of at least four bytes give, as texts
pub addresses : (List ℕ → List ℕ) → List DhcpOption → List (List ℕ)
addresses inet_ntop [] = []
addresses inet_ntop (o ∷ os) =
    if (o.code == 54) && leb 4 o.length
    then inet_ntop (take 4 o.payload) ∷ addresses inet_ntop os
    else addresses inet_ntop os

-- the payloads of options 67
pub boot_files : List DhcpOption → List (List ℕ)
boot_files [] = []
boot_files (o ∷ os) = if o.code == 67 then o.payload ∷ boot_files os else boot_files os

-- the last of the texts, or the one at hand
pub last_of : List ℕ → List (List ℕ) → List ℕ
last_of text [] = text
last_of text (t ∷ ts) = last_of t ts

-- the one at hand or else the first of the texts that is not empty
pub first_of : List ℕ → List (List ℕ) → List ℕ
first_of text [] = text
first_of text (t ∷ ts) = first_of (if is_empty text then t else text) ts

pub Configured : (List ℕ → List ℕ) → BootConfig → List DhcpOption → BootConfig → Type 0
Configured inet_ntop old os new =
    (new.server_address ≡ last_of old.server_address (addresses inet_ntop os))
    × (new.primary_server ≡ first_of old.primary_server (addresses inet_ntop os))
    × (new.boot_script_url ≡ last_of old.boot_script_url (boot_files os))

apply_option-Configured :
    (inet_ntop : List ℕ → List ℕ) (config new : BootConfig) (o : DhcpOption) (os : List DhcpOption)
    → Configured inet_ntop (apply_option inet_ntop config o) os new
    → Configured inet_ntop config (o ∷ os) new
unfolding Configured apply_option addresses boot_files last_of first_of
apply_option-Configured inet_ntop config new o os h = ground arith

apply_options-Configured :
    (inet_ntop : List ℕ → List ℕ) (config : BootConfig) (os : List DhcpOption)
    → Configured inet_ntop config os (apply_options inet_ntop config os)
unfolding Configured addresses boot_files last_of first_of
apply_options-Configured inet_ntop config [] = (refl, refl, refl)
apply_options-Configured inet_ntop config (o ∷ os) =
    apply_option-Configured inet_ntop config _ o os
      (apply_options-Configured inet_ntop (apply_option inet_ntop config o) os)

Ends : Option (List DhcpOption) → Type 0
Ends r = (os : List DhcpOption) × (r ≡ some os)

-- The loop ends with its fuel, whatever the bytes are.
options_from-Ends :
    (fuel : ℕ) (bytes : List ℕ) → length bytes < fuel → Ends (options_from fuel bytes)
unfolding options_from Ends
options_from-Ends zero bytes lt = absurd (omega arith)
options_from-Ends (suc fuel) [] lt = ([], refl)
options_from-Ends (suc fuel) (c ∷ []) lt = ([], refl)
options_from-Ends (suc fuel) (c ∷ size ∷ bytes) lt =
    let left : List ℕ = if c == 0 then size ∷ bytes else drop size bytes in
    let shorter : length left < fuel = ground (arith, length-drop size bytes) in
    let (os, e) = options_from-Ends fuel left shorter in
    if-elim Ends (c == 255) ([], refl)
      (if-elim Ends (c == 0) (os, e)
        (if-elim Ends (ltb (length bytes) size) ([], refl) (_, ap (Option.map _) e)))

parse_options-wire :
    (fs : Fields) (pads : ℕ) (tail : List ℕ)
    → AreOptions fs
    → parse_options (wire fs (end_mark pads tail)) ≡ some (options fs)
unfolding parse_options
parse_options-wire fs pads tail vs = options_from-wire fs pads tail vs _ (omega arith)

-- Discover on a packet of the operation 2, by its options.
receive_offer-taken :
    (inet_ntop : List ℕ → List ℕ) (config : BootConfig) (header bytes : List ℕ)
    → length header ≡ 239
    → receive_offer inet_ntop config (some (dhcp_offer ∷ (header ++ bytes)))
      ≡ Option.map (λ os. finish (apply_options inet_ntop config os)) (parse_options bytes)
unfolding receive_offer
receive_offer-taken inet_ntop config header bytes h =
    rw
      (
        not_short packet_size (dhcp_offer ∷ (header ++ bytes))
            (omega (arith, length-append header bytes)),
        ap (λ n. drop n (header ++ bytes)) (sym h) ∙ drop-append_self header bytes,
      )
      refl

-- An answer with operation 2, 239 more bytes of header, the options `fs` and an end mark is read whole,
-- whatever follows the end mark. Each option has its length and a code other than 0 and 255, and may
-- have padding in front of it, as the end mark may. The server address is then that of the last option
-- 54 with four bytes or more; the primary server, unless it was set, the first such address whose text
-- is not empty; the boot file the last option 67. What no option gives stays. The result is true
-- exactly when the server address is not empty.
pub receive_offer-wire :
    (inet_ntop : List ℕ → List ℕ) (config : BootConfig) (header tail : List ℕ) (fs : Fields)
    (pads : ℕ)
    → length header ≡ 239
    → AreOptions fs
    → (new : BootConfig) × (receive_offer inet_ntop config
          (some (dhcp_offer ∷ (header ++ wire fs (end_mark pads tail))))
        ≡ some (not (is_empty new.server_address), new))
      × Configured inet_ntop config (options fs) new
receive_offer-wire inet_ntop config header tail fs pads h vs = (
  apply_options inet_ntop config (options fs),
  receive_offer-taken inet_ntop config header _ h
      ∙ ap (Option.map _) (parse_options-wire fs pads tail vs),
  apply_options-Configured inet_ntop config (options fs),
)
