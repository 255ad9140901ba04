-- ===== src/Wal/Entry/Laws.antt =====
-- What Validate and Parse make of the bytes that Build writes, whole or cut short.
use mathlib.Core.List.{append_assoc}
use htkis_hyper_disk.Base.{
  ℕ, zero, suc, ◌+◌, ◌-◌, ◌≡◌, ◌<◌, ◌≤◌, refl, sym, ap, ◌∙◌, List, ◌++◌, some, Bool-cases, take,
  drop, length, arith, replicate, leb, leb→le, leb-false, ◌⊎◌, inl, inr, to_le, from_le,
  length-append, take-append_self, drop-append_self, length-take, bound, from_le-to_le, take_all,
  slice-take,
}
use htkis_hyper_disk.Wal.Entry.{
  Entry, ok, torn_write_detected, nothing, wal_magic, wal_version, header_bytes, front_bytes,
  compute_crc32c, compute_header_crc, build, align8, entry_size, validate, validate_body, parse,
  parse_fields,
}

-- what is stored for a payload under a sequence number
pub entry_of : ℕ → List ℕ → Entry
entry_of seq p = record {
  magic = wal_magic;
  version = wal_version;
  seq_id = seq;
  header_crc = compute_header_crc seq (length p);
  payload_len = length p;
  payload = p;
  footer_crc = compute_crc32c (front_bytes seq (some p) (length p));
}

pub payload_len-entry_of : (seq : ℕ) (p : List ℕ) → (entry_of seq p).payload_len ≡ length p
unfolding entry_of
payload_len-entry_of seq p = refl

pub seq_id-entry_of : (seq : ℕ) (p : List ℕ) → (entry_of seq p).seq_id ≡ seq
unfolding entry_of
seq_id-entry_of seq p = refl

-- the bytes of the entry before its padding
abbrev pub bytes_of : ℕ → List ℕ → List ℕ
bytes_of seq p =
    let front = front_bytes seq (some p) (length p) in front ++ to_le 4 (compute_crc32c front)

abbrev pub padding : List ℕ → List ℕ
padding p = replicate (align8 (entry_size (length p)) - entry_size (length p)) 0

compute_crc32c-bound : (l : List ℕ) → compute_crc32c l < bound 4
unfolding compute_crc32c
compute_crc32c-bound l = omega arith

compute_header_crc-bound : (s n : ℕ) → compute_header_crc s n < bound 4
unfolding compute_header_crc
compute_header_crc-bound s n = compute_crc32c-bound (header_bytes s ++ to_le 4 n)

length-front : (seq : ℕ) (p : List ℕ) → length (front_bytes seq (some p) (length p)) ≡ 22 + length p
length-front seq p = omega (arith, ap (λ l. length l) (take_all (length p) p refl))

pub length-bytes_of : (seq : ℕ) (p : List ℕ) → length (bytes_of seq p) ≡ entry_size (length p)
length-bytes_of seq p =
    let front = front_bytes seq (some p) (length p) in
    omega (arith, length-append front (to_le 4 (compute_crc32c front)), length-front seq p)

pub build-bytes_of :
    (seq : ℕ) (p : List ℕ) → build seq (some p) (length p) ≡ bytes_of seq p ++ padding p
unfolding build
build-bytes_of seq p =
    ap (λ n. bytes_of seq p ++ replicate (align8 (entry_size (length p)) - n) 0)
      (length-bytes_of seq p)

validate_body_accepts :
    (bytes : List ℕ) (seq header n : ℕ)
    → entry_size n ≤ length bytes
    → compute_crc32c (take 14 bytes ++ to_le 4 n) ≡ header
    → compute_crc32c (take (22 + n) bytes) ≡ from_le (take 4 (drop (22 + n) bytes))
    → validate_body bytes seq header n ≡ record { status = ok; seq_id = seq; error_msg = nothing }
unfolding validate_body
validate_body_accepts bytes seq header n long head foot =
    let off : (26 + n) - 4 ≡ 22 + n = omega arith in
    let foot' =
      ap (λ k. compute_crc32c (take k bytes)) off
      ∙ foot
      ∙ sym (ap (λ k. from_le (take 4 (drop k bytes))) off) in
    ground (arith, head, foot', long)

validate_accepts :
    (bytes : List ℕ) (seq header n : ℕ)
    → entry_size n ≤ length bytes
    → from_le (take 4 bytes) ≡ wal_magic
    → from_le (take 8 (drop 6 bytes)) ≡ seq
    → from_le (take 4 (drop 14 bytes)) ≡ header
    → from_le (take 4 (drop 18 bytes)) ≡ n
    → compute_crc32c (take 14 bytes ++ to_le 4 n) ≡ header
    → compute_crc32c (take (22 + n) bytes) ≡ from_le (take 4 (drop (22 + n) bytes))
    → validate bytes ≡ record { status = ok; seq_id = seq; error_msg = nothing }
unfolding validate
validate_accepts bytes seq header n long magic seq' header' n' head foot =
    ground (arith, long, magic)
    ∙ ap
        (λ s.
          validate_body bytes s (from_le (take 4 (drop 14 bytes)))
            (from_le (take 4 (drop 18 bytes))))
        seq'
    ∙ ap (λ h. validate_body bytes seq h (from_le (take 4 (drop 18 bytes)))) header'
    ∙ ap (validate_body bytes seq header) n'
    ∙ validate_body_accepts bytes seq header n long head foot

validate_body-short :
    (bytes : List ℕ) (seq header n : ℕ)
    → length bytes < entry_size n
    → (validate_body bytes seq header n).status ≡ torn_write_detected
unfolding validate_body
validate_body-short bytes seq header n short = ground (arith, short)

validate-short :
    (bytes : List ℕ) (n : ℕ)
    → (length bytes < 26) ⊎ (from_le (take 4 (drop 18 bytes)) ≡ n)
    → length bytes < entry_size n
    → (validate bytes).status ≡ torn_write_detected
unfolding validate
validate-short bytes n (inl e) short = ground (arith, e)
validate-short bytes n (inr e) short =
    let body =
      validate_body-short bytes (from_le (take 8 (drop 6 bytes))) (from_le (take 4 (drop 14 bytes)))
        (from_le (take 4 (drop 18 bytes))) (omega (arith, e, short)) in
    ground (arith, body)

parse_fields_lem :
    (bytes : List ℕ) (n : ℕ)
    → parse_fields bytes n ≡ record {
      magic = from_le (take 4 bytes);
      version = from_le (take 2 (drop 4 bytes));
      seq_id = from_le (take 8 (drop 6 bytes));
      header_crc = from_le (take 4 (drop 14 bytes));
      payload_len = n;
      payload = take n (drop 22 bytes);
      footer_crc = from_le (take 4 (drop (22 + n) bytes));
    }
unfolding parse_fields
parse_fields_lem bytes zero = refl
parse_fields_lem bytes (suc n) = ground arith

-- The fields of an entry, where they lie in the bytes.
module _ (seq : ℕ) (p tail : List ℕ) (seq_fits : seq < bound 8)
    (len_fits : length p < bound 4) where
  abbrev data_bytes : List ℕ
  data_bytes = bytes_of seq p ++ tail

  seq_read : from_le (take 8 (drop 6 data_bytes)) ≡ seq
  seq_read = from_le-to_le 8 seq seq_fits

  header_crc_read : from_le (take 4 (drop 14 data_bytes)) ≡ compute_header_crc seq (length p)
  header_crc_read =
      from_le-to_le 4 (compute_header_crc seq (length p)) (compute_header_crc-bound seq (length p))

  len_read : from_le (take 4 (drop 18 data_bytes)) ≡ length p
  len_read = from_le-to_le 4 (length p) len_fits

  front_split :
      data_bytes
      ≡ front_bytes seq (some p) (length p)
        ++ (to_le 4 (compute_crc32c (front_bytes seq (some p) (length p))) ++ tail)
  front_split =
      append_assoc (front_bytes seq (some p) (length p))
        (to_le 4 (compute_crc32c (front_bytes seq (some p) (length p)))) tail

  front_read : take (22 + length p) data_bytes ≡ front_bytes seq (some p) (length p)
  front_read =
      let front = front_bytes seq (some p) (length p) in
      ap (λ d. take (22 + length p) d) front_split
      ∙ ap (λ n. take n (front ++ (to_le 4 (compute_crc32c front) ++ tail)))
          (sym (length-front seq p))
      ∙ take-append_self front (to_le 4 (compute_crc32c front) ++ tail)

  footer_read :
      from_le (take 4 (drop (22 + length p) data_bytes))
      ≡ compute_crc32c (front_bytes seq (some p) (length p))
  footer_read =
      let front = front_bytes seq (some p) (length p) in
      ap (λ d. from_le (take 4 (drop (22 + length p) d))) front_split
      ∙ ap (λ n. from_le (take 4 (drop n (front ++ (to_le 4 (compute_crc32c front) ++ tail)))))
          (sym (length-front seq p))
      ∙ ap (λ d. from_le (take 4 d))
          (drop-append_self front (to_le 4 (compute_crc32c front) ++ tail))
      ∙ from_le-to_le 4 (compute_crc32c front) (compute_crc32c-bound front)

  payload_read : take (length p) (drop 22 data_bytes) ≡ p
  payload_read =
      ap (λ d. take (length p) (drop 22 d)) front_split
      ∙ ap (λ l. take (length p) (l ++ footer)) (take_all (length p) p refl)
      ∙ take-append_self p footer
    where
      footer : List ℕ
      footer = to_le 4 (compute_crc32c (front_bytes seq (some p) (length p))) ++ tail

  data_bytes_long : entry_size (length p) ≤ length data_bytes
  data_bytes_long = omega (arith, length-append (bytes_of seq p) tail, length-bytes_of seq p)

  -- Validate accepts the bytes of an entry, whatever follows them.
  pub validate-bytes_of :
      validate data_bytes ≡ record { status = ok; seq_id = seq; error_msg = nothing }
  unfolding compute_header_crc
  validate-bytes_of =
      validate_accepts data_bytes seq (compute_header_crc seq (length p)) (length p) data_bytes_long
        refl seq_read header_crc_read len_read refl (ap compute_crc32c front_read ∙ sym footer_read)

  -- Parse reads back what was stored.
  pub parse-bytes_of : parse data_bytes ≡ entry_of seq p
  unfolding parse entry_of
  parse-bytes_of =
      ap (parse_fields data_bytes) len_read ∙ parse_fields_lem data_bytes (length p) ∙ λ i. record {
        magic = wal_magic;
        version = wal_version;
        seq_id = seq_read i;
        header_crc = header_crc_read i;
        payload_len = length p;
        payload = payload_read i;
        footer_crc = footer_read i;
      }

  -- Validate refuses the bytes of an entry that are cut short anywhere.
  pub validate-cut :
      (n : ℕ)
      → n < entry_size (length p)
      → (validate (take n data_bytes)).status ≡ torn_write_detected
  validate-cut n short =
      validate-short (take n data_bytes) (length p)
        (elim (Bool-cases (leb 26 n)) [
          | inl le ↦
              inr (
                ap from_le (slice-take 18 4 n data_bytes (omega (arith, leb→le 26 n le)))
                ∙ len_read)
          | inr gt ↦ inl (omega (arith, leb-false 26 n gt, length-take n data_bytes))
        ])
        (omega (arith, short, length-take n data_bytes))

-- What Build writes for a sequence number below 2 ^ 64 and a payload shorter than 2 ^ 32 bytes is
-- accepted by Validate, whatever bytes follow, and Parse reads back the number, the payload and its
-- length, with the magic number, the version and the two CRCs that Build computed.
pub parse-build :
    (seq : ℕ) (p tail : List ℕ)
    → seq < bound 8
    → length p < bound 4
    → (validate (build seq (some p) (length p) ++ tail)
        ≡ record { status = ok; seq_id = seq; error_msg = nothing })
      × (parse (build seq (some p) (length p) ++ tail) ≡ entry_of seq p)
parse-build seq p tail seq_fits len_fits =
    let split =
      ap (λ l. l ++ tail) (build-bytes_of seq p) ∙ append_assoc (bytes_of seq p) (padding p) tail in
    (
      ap validate split ∙ validate-bytes_of seq p (padding p ++ tail) seq_fits len_fits,
      ap parse split ∙ parse-bytes_of seq p (padding p ++ tail) seq_fits len_fits,
    )
