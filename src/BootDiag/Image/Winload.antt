-- ===== src/BootDiag/Image/Winload.antt =====
-- Where bootdiag_v3_winload of tools/bootdiag/bootdiag_checks.c reads.
use htkis_hyper_disk.Base.{
  ℕ, zero, suc, ◌+◌, ◌*◌, ◌≤◌, ◌<◌, ◌≡◌, refl, Bool, true, false, not, ◌&&◌, List, [], ◌∷◌, Option,
  none, some, ltb, leb, ◌==◌, if◌then◌else◌, get_elem?, length, arith, inl, inr, Bool-cases, ◌>>=◌,
}
use htkis_hyper_disk.BootDiag.{Verdict}
use htkis_hyper_disk.BootDiag.Image.{
  u16_at, check_subsystem, check_optional, check_machine, check_pe,
}

get_elem?-inside {ℓ} :
    {A : Type ℓ} (xs : List A) (i : ℕ) → i < length xs → (a : A) × (get_elem? xs i ≡ some a)
get_elem?-inside [] i h = absurd (omega arith)
get_elem?-inside (x ∷ xs) zero h = (x, refl)
get_elem?-inside (x ∷ xs) (suc i) h = get_elem?-inside xs i (omega arith)

get_elem?-outside {ℓ} : {A : Type ℓ} (xs : List A) (i : ℕ) → length xs ≤ i → get_elem? xs i ≡ none
get_elem?-outside [] i h = refl
get_elem?-outside (x ∷ xs) zero h = absurd (omega arith)
get_elem?-outside (x ∷ xs) (suc i) h = get_elem?-outside xs i (omega arith)

-- a read of two bytes that are there
u16_at-inside : (xs : List ℕ) (i : ℕ) → suc i < length xs → (n : ℕ) × (u16_at xs i ≡ some n)
u16_at-inside xs i h =
    let low = get_elem?-inside xs i (omega arith) in
    let high = get_elem?-inside xs (suc i) h in (low.0 + 256 * high.0, rw low.1 (rw high.1 refl))

u16_at-outside : (xs : List ℕ) (i : ℕ) → length xs ≤ suc i → u16_at xs i ≡ none
u16_at-outside xs i h = elim (Bool-cases (ltb i (length xs))) [
  | inl inside ↦
      let low = get_elem?-inside xs i (ground arith) in
      rw low.1 (rw (get_elem?-outside xs (suc i) h) refl)
  | inr outside ↦ rw (get_elem?-outside xs i (ground arith)) refl
]

-- The code comes to a verdict: it never reads outside its buffer.
abbrev pub Answers : Option Verdict → Type 0
Answers o = (v : Verdict) × (o ≡ some v)

Answers-some : (v : Verdict) → Answers (some v)
Answers-some v = (v, refl)

Answers-bind :
    (o : Option ℕ) (f : ℕ → Option Verdict) (n : ℕ) → o ≡ some n → Answers (f n) → Answers (o >>= f)
Answers-bind o f n h a = rw h a

Answers-if :
    (b : Bool) (x y : Option Verdict) → Answers x → Answers y → Answers (if b then x else y)
Answers-if true x y ax ay = ax
Answers-if false x y ax ay = ay

check_subsystem-Answers :
    (header : List ℕ) (off : ℕ) → suc off < length header → Answers (check_subsystem header off)
check_subsystem-Answers header off h =
    let subsystem = u16_at-inside header off h in
    Answers-bind (u16_at header off) _ subsystem.0 subsystem.1 (
      Answers-if (not (subsystem.0 == 10) && not (subsystem.0 == 11)) _ _ (Answers-some _)
        (Answers-some _))

-- A test of a bound before a read of which it is the guard.
Answers-guard :
    (b : Bool) (x y : Option Verdict)
    → (b ≡ true → Answers x)
    → (b ≡ false → Answers y)
    → Answers (if b then x else y)
Answers-guard true x y ax ay = ax refl
Answers-guard false x y ax ay = ay refl

check_optional-Answers :
    (header : List ℕ) (off : ℕ) → length header ≡ 4096 → Answers (check_optional header off)
unfolding check_optional
check_optional-Answers header off n =
    Answers-guard (ltb 4096 (off + 2)) _ _ (λ _. Answers-some _)
      (λ inside.
        let magic = u16_at-inside header off (ground (arith, n, inside)) in
        Answers-bind (u16_at header off) _ magic.0 magic.1 (
          Answers-if (not (magic.0 == 523)) _ _ (Answers-some _) (
            Answers-guard (leb (off + 68 + 2) 4096) _ _
              (λ room. check_subsystem-Answers header (off + 68) (ground (arith, n, room)))
              (λ _. Answers-some _))))

-- For a file of 4096 bytes and an `e_lfanew` below 4091, bootdiag_v3_winload's tests of the PE header and
-- of the optional header come to a verdict, with every read inside the buffer.
check_pe-Answers :
    (header : List ℕ) (e_lfanew : ℕ)
    → length header ≡ 4096
    → e_lfanew < 4091
    → Answers (check_pe header e_lfanew)
unfolding check_pe check_machine
check_pe-Answers header e n lt =
    let pe = u16_at-inside header e (omega (arith, n)) in
    let zeros = u16_at-inside header (e + 2) (omega (arith, n)) in
    let machine = u16_at-inside header (e + 4) (omega (arith, n)) in
    Answers-bind (u16_at header e) _ pe.0 pe.1 (
      Answers-bind (u16_at header (e + 2)) _ zeros.0 zeros.1 (
        Answers-if (pe.0 == 17744 && zeros.0 == 0) _ _
          (Answers-bind (u16_at header (e + 4)) _ machine.0 machine.1 (
            Answers-if (not (machine.0 == 34404)) _ _ (Answers-some _)
              (check_optional-Answers header (e + 24) n)))
          (Answers-some _)))

-- With `e_lfanew` 4091 and the PE signature there, bootdiag_v3_winload's test of the machine reads past the end of a file of 4096 bytes.
check_pe-overrun :
    (header : List ℕ)
    → length header ≡ 4096
    → u16_at header 4091 ≡ some 17744
    → u16_at header 4093 ≡ some 0
    → check_pe header 4091 ≡ none
unfolding check_pe check_machine
check_pe-overrun header n pe zeros =
    rw (pe, check_pe)
      (rw zeros (rw (u16_at-outside header 4095 (omega (arith, n)), check_machine) refl))
