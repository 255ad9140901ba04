-- ===== src/Blk/Pool.antt =====
-- driver/blk/blk_pool.c: the quota of nonpaged pool. LONGLONG values are words of 64 bits in two's
-- complement, and SIZE_T has 64 bits.
use htkis_hyper_disk.Base.{
  ℕ, ◌+◌, ◌≡◌, ◌<◌, ◌≤◌, refl, ap, ◌∙◌, Bool, true, false, ltb, leb, if◌then◌else◌, Bool-cases, inl,
  inr, arith, u64, List, [], ◌∷◌,
}
use htkis_hyper_disk.Nt.{Status, success, insufficient_resources}
use htkis_hyper_disk.Blk.{Extension}

-- a < b for LONGLONGs
abbrev pub ltb_signed : ℕ → ℕ → Bool
ltb_signed a b = ltb (u64 (a + 9223372036854775808)) (u64 (b + 9223372036854775808))

-- HdPoolCheckQuota
pub check_quota : Extension → ℕ → Extension × Status
check_quota e size =
    if ltb_signed e.pool_quota (u64 (e.pool_usage + size))
    then (e, insufficient_resources)
    else (record e { pool_usage = u64 (e.pool_usage + size) }, success)

-- a run of HdPoolCheckQuota, with the status of each call
abbrev pub charge : Extension → List ℕ → Extension × List Status
charge e [] = (e, [])
charge e (size ∷ sizes) =
    let (e', status) = check_quota e size in
    let (after, statuses) = charge e' sizes in (after, status ∷ statuses)

-- what is used of `quota` after a run, when `used` was used before: each size that fits what is left
-- is added
abbrev pub granted : ℕ → ℕ → List ℕ → ℕ
granted quota used [] = used
granted quota used (size ∷ sizes) =
    if leb (used + size) quota then granted quota (used + size) sizes else granted quota used sizes

-- the answers of such a run: a size that does not fit what is left is refused
abbrev pub verdicts : ℕ → ℕ → List ℕ → List Status
verdicts quota used [] = []
verdicts quota used (size ∷ sizes) =
    if leb (used + size) quota
    then success ∷ verdicts quota (used + size) sizes
    else insufficient_resources ∷ verdicts quota used sizes

granted_le : (quota used : ℕ) (sizes : List ℕ) → used ≤ quota → granted quota used sizes ≤ quota
granted_le quota used [] h = h
granted_le quota used (size ∷ sizes) h = elim (Bool-cases (leb (used + size) quota)) [
  | inl fits ↦ simp fits (granted_le quota (used + size) sizes (ground arith))
  | inr full ↦ simp full (granted_le quota used sizes h)
]

-- all sizes are below 2 ^ 62
abbrev pub AreSmall : List ℕ → Type 0
AreSmall [] = 0 ≤ 0
AreSmall (size ∷ sizes) = (size < 4611686018427387904) × AreSmall sizes

signed_small :
    (a b : ℕ) → a < 9223372036854775808 → b < 9223372036854775808 → ltb_signed a b ≡ ltb a b
signed_small a b ha hb =
    let left : u64 (a + 9223372036854775808) ≡ a + 9223372036854775808 = omega arith in
    let right : u64 (b + 9223372036854775808) ≡ b + 9223372036854775808 = omega arith in
    rw left (rw right (ground arith))

check_quota_fits :
    (e : Extension) (size : ℕ)
    → e.pool_quota < 4611686018427387904
    → e.pool_usage + size ≤ e.pool_quota
    → check_quota e size ≡ (record e { pool_usage = e.pool_usage + size }, success)
unfolding check_quota
check_quota_fits e size q fits =
    let sum : u64 (e.pool_usage + size) ≡ e.pool_usage + size = omega arith in
    let test : ltb_signed e.pool_quota (e.pool_usage + size) ≡ false =
      signed_small e.pool_quota (e.pool_usage + size) (omega arith) (omega arith)
      ∙ ground (arith, fits) in
    rw sum (simp test refl)

check_quota_full :
    (e : Extension) (size : ℕ)
    → e.pool_quota < 4611686018427387904
    → e.pool_usage + size < 9223372036854775808
    → e.pool_quota < e.pool_usage + size
    → check_quota e size ≡ (e, insufficient_resources)
unfolding check_quota
check_quota_full e size q small full =
    let sum : u64 (e.pool_usage + size) ≡ e.pool_usage + size = omega arith in
    let test : ltb_signed e.pool_quota (e.pool_usage + size) ≡ true =
      signed_small e.pool_quota (e.pool_usage + size) (omega arith) small ∙ ground (arith, full) in
    rw sum (simp test refl)

charge_run :
    (e : Extension) (sizes : List ℕ)
    → e.pool_quota < 4611686018427387904
    → e.pool_usage ≤ e.pool_quota
    → AreSmall sizes
    → charge e sizes ≡ (
      record e { pool_usage = granted e.pool_quota e.pool_usage sizes },
      verdicts e.pool_quota e.pool_usage sizes,
    )
charge_run e [] q within small = refl
charge_run e (size ∷ sizes) q within small =
    elim (Bool-cases (leb (e.pool_usage + size) e.pool_quota)) [
      | inl fits ↦
          rw (check_quota_fits e size q (ground arith), charge)
            (simp fits (
              ap (λ r. (r.0, success ∷ r.1))
                (charge_run (record e { pool_usage = e.pool_usage + size }) sizes q (ground arith)
                  small.1)))
      | inr full ↦
          rw (check_quota_full e size q (omega (arith, small.0)) (ground arith), charge)
            (simp full
              (ap (λ r. (r.0, insufficient_resources ∷ r.1)) (charge_run e sizes q within small.1)))
    ]

-- When the quota and the sizes are below 2 ^ 62 and the usage starts within the quota, HdPoolCheckQuota
-- is called once after the other for a list of sizes. A call returns success exactly if its size fits
-- what is then left of the quota, and STATUS_INSUFFICIENT_RESOURCES otherwise; the usage grows by
-- exactly the sizes that got success, so it never exceeds the quota; and nothing else of the device
-- extension changes.
pub charge-granted :
    (e : Extension) (sizes : List ℕ)
    → e.pool_quota < 4611686018427387904
    → e.pool_usage ≤ e.pool_quota
    → AreSmall sizes
    → (charge e sizes ≡ (
      record e { pool_usage = granted e.pool_quota e.pool_usage sizes },
      verdicts e.pool_quota e.pool_usage sizes,
    ))
      × (granted e.pool_quota e.pool_usage sizes ≤ e.pool_quota)
charge-granted e sizes q within small =
    (charge_run e sizes q within small, granted_le e.pool_quota e.pool_usage sizes within)
