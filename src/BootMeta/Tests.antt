-- ===== src/BootMeta/Tests.antt =====
-- A saved record, and a server that answers with one.
use htkis_hyper_disk.Base.{ℕ, ◌≡◌, Bool, true, List, ◌++◌, some, replicate}
use htkis_hyper_disk.Codec.{block_read_rsp, encode_header, header_memory}
use htkis_hyper_disk.BootMeta.{
  BootMetaCache, apply_defaults, default_meta, Socket, load_from_server, sealed_meta,
}
use htkis_hyper_disk.BootMeta.Served.{Outcome, load_from_server-Outcome}

-- an answer to a block request with 24 bytes of response and a record
abbrev payload : List ℕ
payload = replicate 24 0 ++ sealed_meta default_meta

abbrev answer : Socket
answer = record {
  connects = true;
  sends = true;
  receives = some (header_memory (encode_header block_read_rsp 0 1 334 0 0 1 0) ++ payload);
}

load_from_server-Outcome_example :
    (r : BootMetaCache × Bool) × (load_from_server answer apply_defaults ≡ some r)
    × Outcome answer apply_defaults r
load_from_server-Outcome_example = load_from_server-Outcome answer apply_defaults
