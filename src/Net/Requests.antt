-- ===== src/Net/Requests.antt =====
-- The requests of net_wsk.c and net_heartbeat.c: the frame ids that they take, and what of a block
-- request reaches the wire.
use htkis_hyper_disk.Base.{
  ℕ, ◌+◌, ◌<◌, ◌≡◌, ◌≢◌, refl, ap, ◌∙◌, true, arith, inl, inr, Bool-cases, Option, none, some, List,
  [], ◌∷◌, length, u32,
}
use htkis_hyper_disk.Nt.{Status, success}
use htkis_hyper_disk.Net.{Net, Request, Header, usable, send_block_request, send_heartbeat}
use htkis_hyper_disk.Net.Frame.{serialize}
use htkis_hyper_disk.Net.Frame.Laws.{serialize_blind}

-- A client's traffic: a block request with its data length, or a heartbeat, each on a connection.
pub data Send : Type 0 where
  block : ℕ → Request → ℕ → Send
  heartbeat : ℕ → ℕ → Send

pub step : Net → Send → Status × Option Header × Net
step n (block i q len) = send_block_request n i q len
step n (heartbeat i terminal) = send_heartbeat n i terminal

-- the connection of a send
abbrev pub slot : Send → ℕ
slot (block i q len) = i
slot (heartbeat i terminal) = i

abbrev pub frame_id_of : Option Header → ℕ
frame_id_of none = 0
frame_id_of (some h) = h.frame_id

-- the state after a list of sends
pub run : Net → List Send → Net
run n [] = n
run n (s ∷ ss) = run (step n s).2 ss

abbrev pub AllUsable : Net → List Send → Type 0
AllUsable n [] = Unit
AllUsable n (s ∷ ss) = (usable n (slot s) ≡ true) × AllUsable n ss

step-usable :
    (n : Net) (s : Send)
    → usable n (slot s) ≡ true
    → ((step n s).0 ≡ success)
      × (frame_id_of (step n s).1 ≡ u32 (n.next_frame_id + 1))
      × ((step n s).2 ≡ record n { next_frame_id = u32 (n.next_frame_id + 1) })
unfolding step send_block_request send_heartbeat
step-usable n (block i q len) h = simp h (refl, refl, refl)
step-usable n (heartbeat i terminal) h = simp h (refl, refl, refl)

AllUsable-next :
    (n : Net) (k : ℕ) (ss : List Send)
    → AllUsable n ss
    → AllUsable (record n { next_frame_id = k }) ss
AllUsable-next n k [] h = tt
AllUsable-next n k (s ∷ ss) h = (h.0, AllUsable-next n k ss h.1)

run_ids :
    (n : Net) (ss : List Send)
    → n.next_frame_id < 4294967296
    → AllUsable n ss
    → run n ss ≡ record n { next_frame_id = u32 (n.next_frame_id + length ss) }
unfolding run
run_ids n [] small h = ground arith
run_ids n (s ∷ ss) small h =
    ap (λ m. run m ss) (step-usable n s h.0).2
    ∙ run_ids (record n { next_frame_id = u32 (n.next_frame_id + 1) }) ss (omega arith)
        (AllUsable-next n (u32 (n.next_frame_id + 1)) ss h.1)
    ∙ ground arith

-- Block requests and heartbeats on usable connections share one counter: whatever is sent in between,
-- fewer than 2 ^ 32 - 1 sends in all, two frames never carry the same frame id.
frame_ids_differ :
    (n : Net) (s : Send) (between : List Send) (t : Send)
    → n.next_frame_id < 4294967296
    → length between < 4294967295
    → usable n (slot s) ≡ true
    → AllUsable n between
    → usable n (slot t) ≡ true
    → frame_id_of (step n s).1 ≢ frame_id_of (step (run n (s ∷ between)) t).1
frame_ids_differ n s between t small few hs hb ht = omega (arith, (step-usable n s hs).1, second_id)
  where
    after : ℕ
    after = u32 (n.next_frame_id + length (s ∷ between))

    second_id : frame_id_of (step (run n (s ∷ between)) t).1 ≡ u32 (after + 1)
    second_id =
        ap (λ m. frame_id_of (step m t).1) (run_ids n (s ∷ between) small (hs, hb))
        ∙ (step-usable (record n { next_frame_id = after }) t ht).1

-- A block request that is put into a frame loses its block count and its layer: the frames of two
-- requests that differ only in these are the same, on every connection and with every payload.
block_request_blind :
    (n : Net) (i : ℕ) (q : Request) (count layer len : ℕ) (payload : Option (List ℕ))
    → serialize
        (send_block_request n i (record q { block_count = count; layer_id = layer }) len).1
        payload
        true
        true
      ≡ serialize (send_block_request n i q len).1 payload true true
unfolding send_block_request
block_request_blind n i q count layer len payload = elim (Bool-cases (usable n i)) [
  | inl on ↦ simp on (serialize_blind _ count layer payload true true)
  | inr off ↦ simp off refl
]
