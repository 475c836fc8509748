-- ===== src/Wifi/Select/Choice.antt =====
-- The two searches for the strongest access point in src/Platform/Espressif/Wifi/WiFiManager.cpp.
use io_tsmart_sys_core.Base.{
  subst, Bool, true, false, ◌≡◌, refl, sym, ◌⊎◌, inl, inr, List, [], ◌∷◌, Option, none, some, arith,
  Bool-cases, Option-cases, if◌then◌else◌,
}
use io_tsmart_sys_core.Base.Int.{ℤ, int_leb, int_ltb}
use io_tsmart_sys_core.Wifi.{AccessPoint}
use io_tsmart_sys_core.Wifi.Select.{keep, strongest, best_of}

abbrev pub In : AccessPoint → List AccessPoint → Type 0
In ap [] = ⊥
In ap (x ∷ xs) = (ap ≡ x) ⊎ In ap xs

-- No accepted entry is stronger.
abbrev pub Tops : (AccessPoint → Bool) → ℤ → List AccessPoint → Type 0
Tops accepts rssi [] = Unit {0}
Tops accepts rssi (x ∷ xs) = (accepts x ≡ true → int_leb x.rssi rssi ≡ true) × Tops accepts rssi xs

Tops-mono :
    (accepts : AccessPoint → Bool) (r q : ℤ) (xs : List AccessPoint)
    → int_leb r q ≡ true
    → Tops accepts r xs
    → Tops accepts q xs
Tops-mono accepts r q [] h t = tt
Tops-mono accepts r q (x ∷ xs) h (first, rest) =
    (λ a. ground (arith, first a), Tops-mono accepts r q xs h rest)

abbrev pub Refused : (AccessPoint → Bool) → List AccessPoint → Type 0
Refused accepts [] = Unit {0}
Refused accepts (x ∷ xs) = (accepts x ≡ false) × Refused accepts xs

Refused-Tops :
    (accepts : AccessPoint → Bool) (r : ℤ) (xs : List AccessPoint)
    → Refused accepts xs
    → Tops accepts r xs
Refused-Tops accepts r [] h = tt
Refused-Tops accepts r (x ∷ xs) (bad, rest) = (λ good. cc, Refused-Tops accepts r xs rest)

-- If an entry is chosen, it is an accepted one and none of those is stronger; if none is, no entry
-- is accepted.
abbrev pub Chosen : (AccessPoint → Bool) → List AccessPoint → Option AccessPoint → Type 0
Chosen accepts aps none = Refused accepts aps
Chosen accepts aps (some r) = In r aps × (accepts r ≡ true) × Tops accepts r.rssi aps

abbrev pick : (AccessPoint → Bool) → AccessPoint → Option AccessPoint → Option AccessPoint
pick accepts x none = if accepts x then some x else none
pick accepts x (some best) =
    if accepts x then if int_ltb x.rssi best.rssi then some best else some x else some best

strongest-keep :
    (accepts : AccessPoint → Bool) (x : AccessPoint) (aps : List AccessPoint)
    → strongest (keep accepts (x ∷ aps)) ≡ pick accepts x (strongest (keep accepts aps))
unfolding strongest keep
strongest-keep accepts x aps = elim (Bool-cases (accepts x)) [
  | inl good ↦ elim (Option-cases (strongest (keep accepts aps))) [
    | inl gone ↦ rw (good, gone) (simp good)
    | inr (best, there) ↦ rw (good, there) (simp good)
  ]
  | inr bad ↦ elim (Option-cases (strongest (keep accepts aps))) [
    | inl gone ↦ rw (bad, gone) (simp bad)
    | inr (best, there) ↦ rw (bad, there) (simp bad)
  ]
]

int_leb_refl : (r : ℤ) → int_leb r r ≡ true
int_leb_refl r = ground arith

pick-Chosen :
    (accepts : AccessPoint → Bool) (x : AccessPoint) (aps : List AccessPoint)
    (o : Option AccessPoint)
    → Chosen accepts aps o
    → Chosen accepts (x ∷ aps) (pick accepts x o)
pick-Chosen accepts x aps none h = elim (Bool-cases (accepts x)) [
  | inl good ↦
      rw good (inl refl, good, (λ _. int_leb_refl x.rssi, Refused-Tops accepts x.rssi aps h))
  | inr bad ↦ rw bad (bad, h)
]
pick-Chosen accepts x aps (some best) (m, fits, tops) = elim (Bool-cases (accepts x)) [
  | inl good ↦ elim (Bool-cases (int_ltb x.rssi best.rssi)) [
    | inl less ↦ simp (good, less) (inr m, fits, (λ _. ground arith, tops))
    | inr more ↦
        simp (good, more)
          (
            inl refl,
            refl,
            (λ _. int_leb_refl x.rssi, Tops-mono accepts best.rssi x.rssi aps (ground arith) tops),
          )
  ]
  | inr bad ↦ simp bad (inr m, fits, (λ good. cc, tops))
]

pub strongest-Chosen :
    (accepts : AccessPoint → Bool) (aps : List AccessPoint)
    → Chosen accepts aps (strongest (keep accepts aps))
unfolding strongest keep
strongest-Chosen accepts [] = tt
strongest-Chosen accepts (x ∷ aps) =
    rw (strongest-keep accepts x aps) (pick-Chosen accepts x aps _ (strongest-Chosen accepts aps))

-- The loop of `evaluateBetterAccessPoint`, from the best entry so far.
record IsBest (accepts : AccessPoint → Bool) (aps : List AccessPoint) (b r : AccessPoint)
    : Type 0 where
  origin : (r ≡ b) ⊎ (In r aps × (accepts r ≡ true))
  above : int_leb b.rssi r.rssi ≡ true
  tops : Tops accepts r.rssi aps

abbrev Improves : (AccessPoint → Bool) → List AccessPoint → AccessPoint → Type 0
Improves accepts aps b =
    (r : AccessPoint) × (best_of accepts aps (some b) ≡ some r) × IsBest accepts aps b r

module _ (accepts : AccessPoint → Bool) (x : AccessPoint) (aps : List AccessPoint) where
  IsBest-better :
      (b r : AccessPoint)
      → accepts x ≡ true
      → int_ltb b.rssi x.rssi ≡ true
      → IsBest accepts aps x r
      → IsBest accepts (x ∷ aps) b r
  IsBest-better b r good more i = record {
    origin = elim i.origin [ inl e ↦ inr (inl e, rw e good) | inr (m, fits) ↦ inr (inr m, fits) ];
    above = let h = i.above in ground arith;
    tops = (λ _. i.above, i.tops);
  }

  IsBest-worse :
      (b r : AccessPoint)
      → (accepts x ≡ true → int_ltb b.rssi x.rssi ≡ false)
      → IsBest accepts aps b r
      → IsBest accepts (x ∷ aps) b r
  IsBest-worse b r less i = record {
    origin = elim i.origin [ inl e ↦ inl e | inr (m, fits) ↦ inr (inr m, fits) ];
    above = i.above;
    tops = (λ good. let h = i.above in let l = less good in ground arith, i.tops);
  }

best_of-Improves :
    (accepts : AccessPoint → Bool) (aps : List AccessPoint) (b : AccessPoint)
    → Improves accepts aps b
unfolding best_of
best_of-Improves accepts [] b =
    (b, refl, record { origin = inl refl; above = int_leb_refl b.rssi; tops = tt })
best_of-Improves accepts (x ∷ aps) b = elim (Bool-cases (accepts x)) [
  | inl good ↦ elim (Bool-cases (int_ltb b.rssi x.rssi)) [
    | inl more ↦
        let (r, e, i) = best_of-Improves accepts aps x in
        (r, simp (good, more) e, IsBest-better accepts x aps b r good more i)
    | inr less ↦
        let (r, e, i) = best_of-Improves accepts aps b in
        (r, simp (good, less) e, IsBest-worse accepts x aps b r (λ _. less) i)
  ]
  | inr bad ↦
      let (r, e, i) = best_of-Improves accepts aps b in
      (r, simp bad e, IsBest-worse accepts x aps b r (λ good. cc) i)
]

IsBest-Chosen :
    (accepts : AccessPoint → Bool) (x : AccessPoint) (aps : List AccessPoint) (r : AccessPoint)
    → accepts x ≡ true
    → IsBest accepts aps x r
    → Chosen accepts (x ∷ aps) (some r)
IsBest-Chosen accepts x aps r good i = elim i.origin [
  | inl e ↦ (inl e, rw e good, (λ _. i.above, i.tops))
  | inr (m, fits) ↦ (inr m, fits, (λ _. i.above, i.tops))
]

Chosen-cons :
    (accepts : AccessPoint → Bool) (x : AccessPoint) (aps : List AccessPoint)
    (o : Option AccessPoint)
    → accepts x ≡ false
    → Chosen accepts aps o
    → Chosen accepts (x ∷ aps) o
Chosen-cons accepts x aps none bad h = (bad, h)
Chosen-cons accepts x aps (some r) bad (m, fits, tops) = (inr m, fits, (λ good. cc, tops))

pub best_of-Chosen :
    (accepts : AccessPoint → Bool) (aps : List AccessPoint)
    → Chosen accepts aps (best_of accepts aps none)
unfolding best_of
best_of-Chosen accepts [] = tt
best_of-Chosen accepts (x ∷ aps) = elim (Bool-cases (accepts x)) [
  | inl good ↦
      let (r, e, i) = best_of-Improves accepts aps x in
      let picked : best_of accepts (x ∷ aps) none ≡ some r = simp good e in
      subst (Chosen accepts (x ∷ aps)) (sym picked) (IsBest-Chosen accepts x aps r good i)
  | inr bad ↦ simp bad (Chosen-cons accepts x aps _ bad (best_of-Chosen accepts aps))
]
