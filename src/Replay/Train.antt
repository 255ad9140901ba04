-- ===== src/Replay/Train.antt =====
-- BootReplayAnalyzer::Train, on the entries of all files, one after another. std::sort is a parameter.
use Prim.Native.Nat.{min}
use htkis_hyper_disk.Base.{
  ℕ, zero, suc, ◌+◌, ◌≤◌, ◌<◌, ◌≡◌, ◌∙◌, Bool, true, false, List, [], ◌∷◌, arith, ltb, ◌==◌,
  if◌then◌else◌, length, u32,
}
use htkis_hyper_disk.Replay.{ReplayEntry}

pub record LbaFreq : Type 0 where
  pub lba : ℕ
  pub freq : ℕ

-- a round of the loop over the entries: find_if, and the increment or push_back
pub count_lba : ℕ → List LbaFreq → List LbaFreq
count_lba lba [] = record { lba = lba; freq = 1 } ∷ []
count_lba lba (f ∷ fs) =
    let rest = f ∷ count_lba lba fs in
    if f.lba == lba then record f { freq = u32 (f.freq + 1) } ∷ fs else rest

pub count_all : List LbaFreq → List ReplayEntry → List LbaFreq
count_all fs [] = fs
count_all fs (e ∷ es) = count_all (count_lba e.lba fs) es

pub data Phase : Type 0 where
  bootstart driverload desktop : Phase

-- the inner loop: the phase of the first entry with the address
pub phase_of : ℕ → List ReplayEntry → Phase
phase_of lba [] = bootstart
phase_of lba (e ∷ es) =
    let rest = phase_of lba es in
    if e.lba == lba
    then (if ltb 15000 e.timestamp_ms
        then desktop
        else (if ltb 10000 e.timestamp_ms then driverload else bootstart))
    else rest

-- a line of the list: the size is always 4096
pub record HotBlock : Type 0 where
  pub lba : ℕ
  pub priority : ℕ
  pub phase : Phase

-- the loop over the first n addresses, of which n have not been written
pub hot_blocks : ℕ → List LbaFreq → List ReplayEntry → List HotBlock
hot_blocks zero fs all = []
hot_blocks (suc n) [] all = []
hot_blocks (suc n) (f ∷ fs) all =
    record { lba = f.lba; priority = suc n; phase = phase_of f.lba all } ∷ hot_blocks n fs all

-- Train: its result and the lines that it writes; `opens` says whether the file can be created
pub train : (List LbaFreq → List LbaFreq) → List ReplayEntry → Bool → Bool × List HotBlock
train sort [] opens = (false, [])
train sort (e ∷ es) opens =
    let freqs = sort (count_all [] (e ∷ es)) in
    if opens then (true, hot_blocks (min (u32 (length freqs)) 500) freqs (e ∷ es)) else (false, [])

-- how often an address is read, what the table says of it, and how many rows it has there
pub reads : ℕ → List ReplayEntry → ℕ
reads lba [] = 0
reads lba (e ∷ es) = (if e.lba == lba then 1 else 0) + reads lba es

pub freq_in : ℕ → List LbaFreq → ℕ
freq_in lba [] = 0
freq_in lba (f ∷ fs) = (if f.lba == lba then f.freq else 0) + freq_in lba fs

pub rows : ℕ → List LbaFreq → ℕ
rows lba [] = 0
rows lba (f ∷ fs) = (if f.lba == lba then 1 else 0) + rows lba fs

freq_in-count_lba :
    (a b : ℕ) (fs : List LbaFreq)
    → freq_in a fs < 4294967295
    → freq_in b (count_lba a fs) ≡ freq_in b fs + (if a == b then 1 else 0)
unfolding freq_in count_lba
freq_in-count_lba a b [] h = ground arith
freq_in-count_lba a b (f ∷ fs) h = ground (arith, freq_in-count_lba a b fs)

rows-count_lba :
    (a b : ℕ) (fs : List LbaFreq)
    → rows b (count_lba a fs)
      ≡ (if a == b then (if ltb 0 (rows a fs) then rows a fs else 1) else rows b fs)
unfolding rows count_lba
rows-count_lba a b [] = ground arith
rows-count_lba a b (f ∷ fs) = ground (arith, rows-count_lba a b fs)

count_all-freq_in :
    (fs : List LbaFreq) (es : List ReplayEntry) (b : ℕ)
    → ((a : ℕ) → freq_in a fs + length es < 4294967296)
    → freq_in b (count_all fs es) ≡ freq_in b fs + reads b es
unfolding count_all reads
count_all-freq_in fs [] b h = omega arith
count_all-freq_in fs (e ∷ es) b h =
    count_all-freq_in (count_lba e.lba fs) es b room ∙ omega (arith, step b)
  where
    step : (b : ℕ) → freq_in b (count_lba e.lba fs) ≡ freq_in b fs + (if e.lba == b then 1 else 0)
    step b = freq_in-count_lba e.lba b fs (omega (arith, h e.lba))

    bit : (c : Bool) → (if c then 1 else 0) ≤ 1
    bit true = omega arith
    bit false = omega arith

    room : (a : ℕ) → freq_in a (count_lba e.lba fs) + length es < 4294967296
    room a = omega (arith, h a, step a, bit (e.lba == a))

count_all-rows :
    (fs : List LbaFreq) (es : List ReplayEntry) (b : ℕ)
    → ((a : ℕ) → rows a fs ≤ 1)
    → rows b (count_all fs es) ≤ 1
unfolding count_all
count_all-rows fs [] b h = h b
count_all-rows fs (e ∷ es) b h =
    count_all-rows (count_lba e.lba fs) es b
      (λ a. ground (arith, rows-count_lba e.lba a fs, h a, h e.lba))

-- For fewer than 2 ^ 32 entries, the table of Train has at most one row for any address, and says for
-- it exactly how many of the entries have this address.
pub count_all-reads :
    (es : List ReplayEntry) (lba : ℕ)
    → length es < 4294967296
    → (freq_in lba (count_all [] es) ≡ reads lba es) × (rows lba (count_all [] es) ≤ 1)
unfolding freq_in rows
count_all-reads es lba small = (
  count_all-freq_in [] es lba (λ a. omega (arith, small)) ∙ omega arith,
  count_all-rows [] es lba (λ a. omega arith),
)
