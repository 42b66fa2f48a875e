-- ===== src/OrdMap.antt =====
-- `std::map` from addresses to bytes, as srec.hpp and memory_device_ram.hpp use it: a list of
-- entries in rising order of their keys, which is the order of iteration.
use scarv_cpu.Base.{
  ℕ, ◌<◌, ◌≡◌, refl, subst, inl, inr, Bool-cases, List, [], ◌∷◌, Option, none, some, arith, ltb,
  ◌==◌, if◌then◌else◌,
}

abbrev pub OrdMap : Type 0
OrdMap = List (ℕ × ℕ)

abbrev pub MapBytes : OrdMap → Type 0
MapBytes [] = Unit {0}
MapBytes ((k, v) ∷ m) = (v < 256) × MapBytes m

-- `m[k] = v`
unfoldable pub put : ℕ → ℕ → OrdMap → OrdMap
put k v [] = (k, v) ∷ []
put k v ((j, w) ∷ m) =
    if k == j then (k, v) ∷ m else if ltb k j then (k, v) ∷ (j, w) ∷ m else (j, w) ∷ put k v m

unfoldable pub find : ℕ → OrdMap → Option ℕ
find k [] = none
find k ((j, w) ∷ m) = if j == k then some w else find k m

-- The byte that reading `m[k]` gives: a missing key reads as zero.
unfoldable pub value : ℕ → OrdMap → ℕ
value k m = elim (find k m) [ none ↦ 0 | some v ↦ v ]

-- Reading `m[k]` enters a missing key, with the value zero.
unfoldable pub index : ℕ → OrdMap → ℕ × OrdMap
index k m = elim (find k m) [ none ↦ (0, put k 0 m) | some v ↦ (v, m) ]

pub find-put : (k v j : ℕ) (m : OrdMap) → find j (put k v m) ≡ (if k == j then some v else find j m)
unfolding put find
find-put k v j [] = refl
find-put k v j ((i, w) ∷ m) = ground (arith, find-put k v j m)

pub value-put : (k v j : ℕ) (m : OrdMap) → value j (put k v m) ≡ (if k == j then v else value j m)
unfolding value
value-put k v j m = ground (arith, find-put k v j m)

-- A read returns the value, and no later read can tell that it took place.
pub index-value : (k : ℕ) (m : OrdMap) → (index k m).0 ≡ value k m
unfolding index value
index-value k m = ground arith

pub value-index : (k j : ℕ) (m : OrdMap) → value j (index k m).1 ≡ value j m
unfolding index value
value-index k j m = ground (arith, find-put k 0 j m)

-- The keys rise along the list, from the given bound on.
abbrev pub Rising : ℕ → OrdMap → Type 0
Rising n [] = Unit {0}
Rising n ((k, v) ∷ m) = (n < k) × Rising k m

abbrev pub IsSorted : OrdMap → Type 0
IsSorted [] = Unit {0}
IsSorted ((k, v) ∷ m) = Rising k m

put-Rising : (n k v : ℕ) (m : OrdMap) → n < k → Rising n m → Rising n (put k v m)
unfolding put
put-Rising n k v [] h r = (h, tt)
put-Rising n k v ((j, w) ∷ m) h r = elim (Bool-cases (k == j)) [
  | inl same ↦ let e : j ≡ k = ground (arith, same) in rw same (h, subst (λ x. Rising x m) e r.1)
  | inr other ↦ elim (Bool-cases (ltb k j)) [
    | inl before ↦ let lt : k < j = ground (arith, before) in rw (other, before) (h, (lt, r.1))
    | inr behind ↦
        let lt : j < k = ground (arith, other, behind) in
        rw (other, behind) (r.0, put-Rising j k v m lt r.1)
  ]
]

pub put-IsSorted : (k v : ℕ) (m : OrdMap) → IsSorted m → IsSorted (put k v m)
unfolding put
put-IsSorted k v [] s = tt
put-IsSorted k v ((j, w) ∷ m) s = elim (Bool-cases (k == j)) [
  | inl same ↦ let e : j ≡ k = ground (arith, same) in rw same (subst (λ x. Rising x m) e s)
  | inr other ↦ elim (Bool-cases (ltb k j)) [
    | inl before ↦ let lt : k < j = ground (arith, before) in rw (other, before) (lt, s)
    | inr behind ↦
        let lt : j < k = ground (arith, other, behind) in
        rw (other, behind) (put-Rising j k v m lt s)
  ]
]
