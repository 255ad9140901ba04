-- ===== src/BootMeta/Saved.antt =====
-- The record that Save writes and Load reads.
use htkis_hyper_disk.Base.{ℕ, ◌≡◌, ◌<◌, List, ◌++◌, take, length, to_le, bound}

-- A CRC behind the first 306 of 310 bytes.
module _ (x : List ℕ) (crc : ℕ) (len : length x ≡ 310) (fits : crc < bound 4) where
  abbrev file : List ℕ
  file = take 306 x ++ to_le 4 crc
