-- ===== src/Tracker.antt =====
-- driver/blk/blk_irp_tracker.c: the table of requests in flight and its watchdog. A packet is known by
-- its address, a number. `now` is what HdQueryTickCountMs gives at the call. A trace keeps the calls
-- of the kernel that a function makes, oldest first; the spin lock makes each list update one step.
pub mod Ledger
pub mod Balance
pub mod Watchdog
pub mod Age
pub mod Timer
mod Tests
use htkis_hyper_disk.Base.{
  ℕ, zero, suc, ◌+◌, ◌*◌, Bool, true, false, not, List, [], ◌∷◌, ◌++◌, ltb, leb, ◌==◌,
  if◌then◌else◌, u32, sub32, sub64,
}

-- HD_IRP_TIMEOUT_SEC * 1000
abbrev pub timeout_ms : ℕ
timeout_ms = 60 * 1000

-- HD_IRP_TRACK_ENTRY
pub record Entry : Type 0 where
  pub irp : ℕ
  pub submit_timestamp : ℕ
  pub major_function : ℕ
  pub minor_function : ℕ
  pub io_size : ℕ

-- What the tracker asks of the kernel.
pub data Call : Type 0 where
  reference dereference : ℕ → Call
  complete_not_ready : ℕ → Call
  allocate free : Call
  set_timer cancel_timer remove_dpc : Call

-- HD_IRP_TRACKER, with the calls made so far
pub record Tracker : Type 0 where
  pub active_list : List Entry
  pub active_count : ℕ
  pub timer_running : Bool
  pub trace : List Call

abbrev pub call : Tracker → List Call → Tracker
call t cs = record t { trace = t.trace ++ cs }

-- HdIrpTrackerInit
pub initialize : List Call → Tracker
initialize before = record {
  active_list = [];
  active_count = 0;
  timer_running = false;
  trace = before;
}

-- HdIrpTrackerDestroy. It leaves the list as it is.
pub destroy : Tracker → Tracker
destroy t =
    if t.timer_running
    then call (record t { timer_running = false }) (cancel_timer ∷ remove_dpc ∷ [])
    else call t (remove_dpc ∷ [])

-- HdIrpTrackerSubmit; `allocated` says whether ExAllocatePool2 gives an entry.
pub submit : Tracker → Bool → ℕ → ℕ → ℕ → ℕ → Tracker
submit t allocated now irp major minor =
    let entry : Entry = record {
      irp = irp;
      submit_timestamp = now;
      major_function = major;
      minor_function = minor;
      io_size = 0;
    } in
    let listed : Tracker = record t {
      active_list = t.active_list ++ (entry ∷ []);
      active_count = u32 (t.active_count + 1);
      trace = t.trace ++ (allocate ∷ reference irp ∷ []);
    } in
    if allocated
    then (if t.timer_running
        then listed
        else call (record listed { timer_running = true }) (set_timer ∷ []))
    else t

-- The loop of HdIrpTrackerComplete: the list without the first entry of the packet.
pub remove_irp : ℕ → List Entry → List Entry
remove_irp irp [] = []
remove_irp irp (e ∷ es) = let rest = remove_irp irp es in if e.irp == irp then es else e ∷ rest

-- whether that loop finds an entry
pub has_irp : ℕ → List Entry → Bool
has_irp irp [] = false
has_irp irp (e ∷ es) = let rest = has_irp irp es in if e.irp == irp then true else rest

-- HdIrpTrackerComplete
pub complete : Tracker → ℕ → Tracker
complete t irp =
    if has_irp irp t.active_list
    then record t {
      active_list = remove_irp irp t.active_list;
      active_count = sub32 t.active_count 1;
      trace = t.trace ++ (dereference irp ∷ free ∷ []);
    }
    else t

-- the watchdog's test; the difference of the two ULONGLONGs wraps round
abbrev pub expired : ℕ → Entry → Bool
expired now e = ltb timeout_ms (sub64 now e.submit_timestamp)

-- what the watchdog calls for an entry that has expired; a packet address 0 is not completed
abbrev pub expire_calls : Entry → List Call
expire_calls e = if e.irp == 0 then free ∷ [] else complete_not_ready e.irp ∷ free ∷ []

-- One round of HdIrpTrackerWatchdog's loop for each entry of the list that it started with.
pub scan : ℕ → List Entry → Tracker → Tracker
scan now [] t = t
scan now (e ∷ es) t = scan now es (
    if expired now e
    then record t { active_count = sub32 t.active_count 1; trace = t.trace ++ expire_calls e }
    else record t { active_list = t.active_list ++ (e ∷ []) })

-- HdIrpTrackerWatchdog
pub watchdog : Tracker → ℕ → Tracker
watchdog t now =
    let t' = scan now t.active_list (record t { active_list = [] }) in
    if ltb 0 t'.active_count then call t' (set_timer ∷ []) else record t' { timer_running = false }
