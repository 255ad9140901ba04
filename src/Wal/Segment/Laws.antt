-- ===== src/Wal/Segment/Laws.antt =====
-- What ReadAllEntries makes of a file: the loop's equation with enough fuel, and the entries of a
-- log that is whole or cut short.
use mathlib.Core.List.{append_assoc}
use htkis_hyper_disk.Base.{
  ℕ, zero, suc, ◌-◌, ◌≡◌, ◌<◌, ◌≤◌, refl, sym, ap, ◌∙◌, List, [], ◌∷◌, ◌++◌, some, take, drop,
  length, arith, length-append, length-drop, drop-append_self, length-replicate, bound,
}
use htkis_hyper_disk.Wal.Entry.{
  Entry, EntryStatus, ok, torn_write_detected, build, validate, parse, align8, entry_size,
}
use htkis_hyper_disk.Wal.Entry.Laws.{
  payload_len-entry_of, entry_of, bytes_of, padding, build-bytes_of, length-bytes_of,
  validate-bytes_of, parse-bytes_of, validate-cut,
}
use htkis_hyper_disk.Wal.Segment.{entries_from}

-- The loop of ReadAllEntries ends: with fuel for every byte or more, the result is the same, whatever
-- the bytes are.
entries_from-enough :
    (f g : ℕ) (bytes : List ℕ)
    → length bytes ≤ f
    → length bytes ≤ g
    → entries_from f bytes ≡ entries_from g bytes
unfolding entries_from
entries_from-enough zero zero bytes hf hg = refl
entries_from-enough zero (suc g) [] hf hg = refl
entries_from-enough zero (suc g) (b ∷ bs) hf hg = absurd (omega arith)
entries_from-enough (suc f) zero [] hf hg = refl
entries_from-enough (suc f) zero (b ∷ bs) hf hg = absurd (omega arith)
entries_from-enough (suc f) (suc g) [] hf hg = refl
entries_from-enough (suc f) (suc g) (b ∷ bs) hf hg =
    let size = align8 (entry_size (parse (b ∷ bs)).payload_len) in
    let left = drop size (b ∷ bs) in
    let shorter : length left ≤ length bs = omega (arith, length-drop size (b ∷ bs)) in
    ap (λ rest. elim (validate (b ∷ bs)).status [ ok ↦ parse (b ∷ bs) ∷ rest | _ ↦ [] ])
      (entries_from-enough f g left (omega (arith, shorter, hf)) (omega (arith, shorter, hg)))

-- the entries in the bytes of a file
abbrev pub entries : List ℕ → List Entry
entries bytes = entries_from (length bytes) bytes

pub entries-nil : entries [] ≡ []
unfolding entries_from
entries-nil = refl

-- what one round gives, by the status
abbrev one_entry : Entry → List Entry → EntryStatus → List Entry
one_entry e after status = elim status [ ok ↦ e ∷ after | _ ↦ [] ]

-- One round of the loop on bytes that Validate accepts.
entries-step :
    (b : ℕ) (bs rest : List ℕ) (e : Entry)
    → (validate (b ∷ bs)).status ≡ ok
    → parse (b ∷ bs) ≡ e
    → drop (align8 (entry_size e.payload_len)) (b ∷ bs) ≡ rest
    → entries (b ∷ bs) ≡ e ∷ entries rest
unfolding entries_from
entries-step b bs rest e good parsed left =
    let after =
      entries_from (length bs) (drop (align8 (entry_size (parse (b ∷ bs)).payload_len)) (b ∷ bs)) in
    let shorter : length (drop (align8 (entry_size e.payload_len)) (b ∷ bs)) ≤ length bs =
      omega (arith, length-drop (align8 (entry_size e.payload_len)) (b ∷ bs)) in
    ap (one_entry (parse (b ∷ bs)) after) good
    ∙ ap (λ x. x ∷ entries_from (length bs) (drop (align8 (entry_size x.payload_len)) (b ∷ bs)))
        parsed
    ∙ ap (λ t. e ∷ t)
        (entries_from-enough (length bs)
            (length (drop (align8 (entry_size e.payload_len)) (b ∷ bs)))
            (drop (align8 (entry_size e.payload_len)) (b ∷ bs)) shorter (omega arith)
          ∙ ap entries left)

entries-refused :
    (bytes : List ℕ) → (validate bytes).status ≡ torn_write_detected → entries bytes ≡ []
unfolding entries_from
entries-refused [] h = refl
entries-refused (b ∷ bs) h =
    let after =
      entries_from (length bs) (drop (align8 (entry_size (parse (b ∷ bs)).payload_len)) (b ∷ bs)) in
    ap (one_entry (parse (b ∷ bs)) after) h

-- A record to be logged: its sequence number and its payload, of a size that the entry can hold.
pub record Fits (r : ℕ × List ℕ) : Type 0 where
  pub seq_fits : r.0 < bound 8
  pub len_fits : length r.1 < bound 4

abbrev pub built : ℕ × List ℕ → List ℕ
built r = build r.0 (some r.1) (length r.1)

abbrev pub stored : ℕ × List ℕ → Entry
stored r = entry_of r.0 r.1

length-padded :
    (r : ℕ × List ℕ) → length (bytes_of r.0 r.1 ++ padding r.1) ≡ align8 (entry_size (length r.1))
length-padded r = omega (
  arith,
  length-append (bytes_of r.0 r.1) (padding r.1),
  length-bytes_of r.0 r.1,
  length-replicate {A = ℕ} (align8 (entry_size (length r.1)) - entry_size (length r.1)) 0,
)

pub length-built : (r : ℕ × List ℕ) → length (built r) ≡ align8 (entry_size (length r.1))
length-built r = ap (λ l. length l) (build-bytes_of r.0 r.1) ∙ length-padded r

drop-entry :
    (r : ℕ × List ℕ) (rest : List ℕ)
    → drop (align8 (entry_size (stored r).payload_len)) (bytes_of r.0 r.1 ++ (padding r.1 ++ rest))
      ≡ rest
drop-entry r rest =
    let bytes = bytes_of r.0 r.1 in
    ap (λ n. drop (align8 (entry_size n)) (bytes ++ (padding r.1 ++ rest)))
      (payload_len-entry_of r.0 r.1)
    ∙ ap (drop (align8 (entry_size (length r.1)))) (sym (append_assoc bytes (padding r.1) rest))
    ∙ ap (λ n. drop n ((bytes ++ padding r.1) ++ rest)) (sym (length-padded r))
    ∙ drop-append_self (bytes ++ padding r.1) rest

pub entries-built :
    (r : ℕ × List ℕ) (rest : List ℕ) → Fits r → entries (built r ++ rest) ≡ stored r ∷ entries rest
entries-built r rest v =
    ap (λ l. entries (l ++ rest)) (build-bytes_of r.0 r.1)
    ∙ ap entries (append_assoc (bytes_of r.0 r.1) (padding r.1) rest)
    ∙ entries-step _ _ rest (stored r)
        (ap (λ c. c.status) (validate-bytes_of r.0 r.1 (padding r.1 ++ rest) v.seq_fits v.len_fits))
        (parse-bytes_of r.0 r.1 (padding r.1 ++ rest) v.seq_fits v.len_fits) (drop-entry r rest)

pub entries-cut :
    (r : ℕ × List ℕ) (n : ℕ)
    → Fits r
    → n < entry_size (length r.1)
    → entries (take n (built r)) ≡ []
entries-cut r n v short =
    ap (λ b. entries (take n b)) (build-bytes_of r.0 r.1)
    ∙ entries-refused (take n (bytes_of r.0 r.1 ++ padding r.1))
        (validate-cut r.0 r.1 (padding r.1) v.seq_fits v.len_fits n short)
