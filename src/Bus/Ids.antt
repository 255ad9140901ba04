-- ===== src/Bus/Ids.antt =====
-- HdBusPdoQueryId: the texts by which a child is found, in buffers of 16-bit characters.
use mathlib.Core.List.{append_assoc}
use htkis_hyper_disk.Base.{
  ℕ, zero, suc, ◌+◌, ◌≡◌, refl, sym, ap, ◌∙◌, Bool, List, [], ◌∷◌, ◌++◌, Option, none, some, arith,
  if◌then◌else◌, take-append_self, drop, length, length-append, replicate,
}
use htkis_hyper_disk.Serial.{codes}
use htkis_hyper_disk.Replay.{copy_to}
use htkis_hyper_disk.Replay.Slots.{drop-append_past}
use htkis_hyper_disk.Nt.{Status, success, insufficient_resources, not_supported}
use htkis_hyper_disk.Bus.{IdType, device_id, hardware_ids, instance_id, compatible_ids, other_id}

-- the loop that adds up the lengths, with the last null character; in characters
pub total_length : List (List ℕ) → ℕ
total_length [] = 1
total_length (t ∷ ts) = (length t + 1) + total_length ts

-- the loop that copies the texts to `ptr` and on
pub copy_texts : List ℕ → ℕ → List (List ℕ) → List ℕ
copy_texts buffer ptr [] = buffer
copy_texts buffer ptr (t ∷ ts) = copy_texts (copy_to buffer ptr t) (ptr + (length t + 1)) ts

-- the cases of the hardware and compatible identifiers
pub multi_text : List (List ℕ) → List ℕ
multi_text ts = copy_texts (replicate (total_length ts) 0) 0 ts

-- the cases of the device and instance identifiers: room for two null characters
pub single_text : List ℕ → List ℕ
single_text t = copy_to (replicate (length t + 2) 0) 0 t

-- the buffer that a query returns, if there is memory; none for an unknown type
pub id_text : IdType → Option (List ℕ)
id_text device_id = some (single_text (codes "ROOT\\HYPERDISKBLK"))
id_text hardware_ids =
    some (multi_text (codes "ROOT\\HYPERDISKBLK" ∷ codes "HTKIS\\HyperDisk_VDisk" ∷ []))
id_text instance_id = some (single_text (codes "0"))
id_text compatible_ids = some (multi_text (codes "ROOT\\DISK" ∷ []))
id_text other_id = none

-- HdBusPdoQueryId: its status, and the buffer
pub pdo_query_id : IdType → Bool → Status × Option (List ℕ)
pdo_query_id id memory = elim (id_text id) [
  | none ↦ (not_supported, none)
  | some t ↦ if memory then (success, some t) else (insufficient_resources, none)
]

-- each text with its null character, and a null character at the end
abbrev pub listed : List (List ℕ) → List ℕ
listed [] = 0 ∷ []
listed (t ∷ ts) = t ++ (0 ∷ listed ts)

drop-replicate : (n m : ℕ) → drop {A = ℕ} n (replicate (n + suc m) 0) ≡ 0 ∷ replicate m 0
drop-replicate zero m = ap (λ k. replicate {A = ℕ} k 0) {x = zero + suc m} {y = suc m} (omega arith)
drop-replicate (suc n) m =
    ap (λ k. drop {A = ℕ} (suc n) (replicate k 0)) {x = suc n + suc m} {y = suc (n + suc m)}
      (omega arith)
    ∙ drop-replicate n m

copy_to-end :
    (done t : List ℕ) (m k : ℕ)
    → k ≡ length t + suc m
    → copy_to (done ++ replicate k 0) (length done) t ≡ (done ++ (t ++ (0 ∷ []))) ++ replicate m 0
copy_to-end done t m k e =
    ap (λ l. l ++ (t ++ drop (length done + length t) (done ++ replicate k 0)))
      (take-append_self done (replicate k 0))
    ∙ ap (λ l. done ++ (t ++ l)) left
    ∙ ap (λ l. done ++ l) (sym (append_assoc t (0 ∷ []) (replicate m 0)))
    ∙ sym (append_assoc done (t ++ (0 ∷ [])) (replicate m 0))
  where
    left : drop (length done + length t) (done ++ replicate k 0) ≡ 0 ∷ replicate m 0
    left =
        drop-append_past (length done + length t) done (replicate k 0) (omega arith)
        ∙ ap (λ n. drop n (replicate k 0)) {y = length t} (omega arith)
        ∙ ap (λ n. drop (length t) (replicate n 0)) e
        ∙ drop-replicate (length t) m

copy_texts-listed :
    (done : List ℕ) (ts : List (List ℕ)) (p : ℕ)
    → p ≡ length done
    → copy_texts (done ++ replicate (total_length ts) 0) p ts ≡ done ++ listed ts
unfolding copy_texts total_length
copy_texts-listed done [] p e = refl
copy_texts-listed done (t ∷ ts) p e =
    ap
      (λ q.
        copy_texts (copy_to (done ++ replicate ((length t + 1) + total_length ts) 0) q t)
          (p + (length t + 1)) ts)
      e
    ∙ ap (λ b. copy_texts b (p + (length t + 1)) ts)
        (copy_to-end done t (total_length ts) _ (omega arith))
    ∙ copy_texts-listed (done ++ (t ++ (0 ∷ []))) ts (p + (length t + 1))
        (omega (arith, e, length-append done (t ++ (0 ∷ [])), length-append t (0 ∷ [])))
    ∙ append_assoc done (t ++ (0 ∷ [])) (listed ts)
    ∙ ap (λ l. done ++ l) (append_assoc t (0 ∷ []) (listed ts))

-- The buffer for a list of texts is filled exactly: it holds the texts in order, each with a null
-- character behind it, and one null character more at the end.
multi_text-listed : (ts : List (List ℕ)) → multi_text ts ≡ listed ts
unfolding multi_text
multi_text-listed ts = copy_texts-listed [] ts 0 refl

single_text-listed : (t : List ℕ) → single_text t ≡ t ++ (0 ∷ 0 ∷ [])
unfolding single_text
single_text-listed t =
    copy_to-end [] t 1 (length t + 2) (omega arith) ∙ append_assoc t (0 ∷ []) (0 ∷ [])

-- what the texts of an identifier are
abbrev pub texts_of : IdType → List (List ℕ)
texts_of device_id = codes "ROOT\\HYPERDISKBLK" ∷ []
texts_of hardware_ids = codes "ROOT\\HYPERDISKBLK" ∷ codes "HTKIS\\HyperDisk_VDisk" ∷ []
texts_of instance_id = codes "0" ∷ []
texts_of compatible_ids = codes "ROOT\\DISK" ∷ []
texts_of other_id = []

-- Every type of identifier that is served returns its texts as a list whose end a null character
-- marks, also where Windows asks for one text; without memory it returns no buffer, and any other type
-- is not supported.
pdo_query_id_lem :
    (id : IdType) (memory : Bool)
    → pdo_query_id id memory ≡ (elim (texts_of id) [
      | [] ↦ (not_supported, none)
      | t ∷ ts ↦
          if memory then (success, some (listed (t ∷ ts))) else (insufficient_resources, none)
    ])
unfolding pdo_query_id id_text
pdo_query_id_lem device_id memory =
    ap (λ l. if memory then (success, some l) else (insufficient_resources, none))
      (single_text-listed (codes "ROOT\\HYPERDISKBLK"))
pdo_query_id_lem hardware_ids memory =
    ap (λ l. if memory then (success, some l) else (insufficient_resources, none))
      (multi_text-listed (texts_of hardware_ids))
pdo_query_id_lem instance_id memory =
    ap (λ l. if memory then (success, some l) else (insufficient_resources, none))
      (single_text-listed (codes "0"))
pdo_query_id_lem compatible_ids memory =
    ap (λ l. if memory then (success, some l) else (insufficient_resources, none))
      (multi_text-listed (texts_of compatible_ids))
pdo_query_id_lem other_id memory = refl
