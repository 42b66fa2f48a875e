-- ===== src/Bus/Map.antt =====
-- The address map: which ranges `add_device` lets onto the bus, and whom an address reaches.
use scarv_cpu.Base.{
  ℕ, suc, ◌≤◌, ◌<◌, ◌≡◌, ◌⊎◌, ◌↔◌, ◌-◌, ◌∙◌, sym, ap, map, refl, true, false, List, [], ◌∷◌, ◌++◌,
  some, arith, set, Bool-cases, if◌then◌else◌, inl, inr, subst,
}
use scarv_cpu.Device.Range.{Range, in_range}
use scarv_cpu.Device.{Device, range}
use scarv_cpu.Bus.{Bus, clashes, any_clash, add_device, get_device_from, get_device_at, store}

-- Two ranges, ends included, have no address in common.
abbrev Apart : Range → Range → Type 0
Apart r s = (r.top < s.base) ⊎ (s.top < r.base)

abbrev pub ApartFrom : Range → List Device → Type 0
ApartFrom r [] = Unit {0}
ApartFrom r (d ∷ ds) = Apart r (range d) × ApartFrom r ds

-- No address belongs to two devices.
abbrev pub AllApart : List Device → Type 0
AllApart [] = Unit {0}
AllApart (d ∷ ds) = ApartFrom (range d) ds × AllApart ds

-- The range encloses that of a device, with room at both ends.
abbrev Encloses : Range → Range → Type 0
Encloses r s = (r.base < s.base) × (s.top < r.top)

abbrev EnclosesNone : Range → List Device → Type 0
EnclosesNone r [] = Unit {0}
EnclosesNone r (d ∷ ds) = (((range d).base ≤ r.base) ⊎ (r.top ≤ (range d).top)) × EnclosesNone r ds

abbrev EnclosesAll : Range → List Device → Type 0
EnclosesAll r [] = Unit {0}
EnclosesAll r (d ∷ ds) = Encloses r (range d) × EnclosesAll r ds

clashes-Apart :
    (r s : Range)
    → r.base ≤ r.top
    → (s.base ≤ r.base) ⊎ (r.top ≤ s.top)
    → (clashes r s ≡ false) ↔ Apart r s
unfolding clashes
clashes-Apart r s w e = ground arith

any_clash-ApartFrom :
    (r : Range) (ds : List Device)
    → r.base ≤ r.top
    → EnclosesNone r ds
    → (any_clash r ds ≡ false) ↔ ApartFrom r ds
unfolding any_clash
any_clash-ApartFrom r [] w e = ((λ _. tt), (λ _. refl))
any_clash-ApartFrom r (d ∷ ds) w e =
    let one = clashes-Apart r (range d) w e.0 in
    let more = any_clash-ApartFrom r ds w e.1 in
    ((λ h. (one.0 (ground arith), more.0 (ground arith))), (λ a. rw (one.1 a.0) (more.1 a.1)))

ApartFrom-snoc :
    (r : Range) (ds : List Device) (d : Device)
    → ApartFrom r ds
    → Apart r (range d)
    → ApartFrom r (ds ++ d ∷ [])
ApartFrom-snoc r [] d h a = (a, tt)
ApartFrom-snoc r (e ∷ ds) d h a = (h.0, ApartFrom-snoc r ds d h.1 a)

AllApart-snoc :
    (ds : List Device) (d : Device) → AllApart ds → ApartFrom (range d) ds → AllApart (ds ++ d ∷ [])
AllApart-snoc [] d h a = (tt, tt)
AllApart-snoc (e ∷ ds) d h a =
    (ApartFrom-snoc (range e) ds d h.0 (ground arith), AllApart-snoc ds d h.1 a.1)

-- Where the new range runs upwards and encloses no range of the bus with room at both ends:
-- `add_device` succeeds exactly when no address of the new range belongs to a device of the bus; it
-- then puts the device last, and else leaves the bus as it was; and in a bus whose ranges have no
-- address in common they still have none.
pub add_device_apart :
    (bus : Bus) (d : Device)
    → (range d).base ≤ (range d).top
    → EnclosesNone (range d) bus.devices
    → AllApart bus.devices
    → (((add_device bus d).0 ≡ true) ↔ ApartFrom (range d) bus.devices)
      × ((add_device bus d).1.devices
          ≡ (if (add_device bus d).0 then bus.devices ++ d ∷ [] else bus.devices))
      × AllApart (add_device bus d).1.devices
unfolding add_device
add_device_apart bus d w e h =
    let clash = any_clash-ApartFrom (range d) bus.devices w e in
    elim (Bool-cases (any_clash (range d) bus.devices)) [
      | inl c ↦ rw c (((λ q. absurd (cc)), (λ a. absurd (cc (clash.1 a)))), refl, h)
      | inr c ↦
          rw c (((λ _. clash.0 c), (λ _. refl)), refl, AllApart-snoc bus.devices d h (clash.0 c))
    ]

any_clash-EnclosesAll : (r : Range) (ds : List Device) → EnclosesAll r ds → any_clash r ds ≡ false
unfolding any_clash clashes
any_clash-EnclosesAll r [] h = refl
any_clash-EnclosesAll r (d ∷ ds) h = ground (arith, any_clash-EnclosesAll r ds h.1)

-- A range that encloses those of all devices, with room at both ends, overlaps each of them, and
-- `add_device` accepts it nevertheless.
pub add_device_enclosing :
    (bus : Bus) (d : Device)
    → EnclosesAll (range d) bus.devices
    → add_device bus d ≡ (true, record bus { devices = bus.devices ++ d ∷ [] })
unfolding add_device
add_device_enclosing bus d h = rw (any_clash-EnclosesAll (range d) bus.devices h)

-- The device of an index, in a list that starts at index `i`.
abbrev pub Stands : List Device → ℕ → ℕ → Device → Type 0
Stands [] i k d = ⊥
Stands (e ∷ ds) i k d = ((i ≡ k) × (e ≡ d)) ⊎ Stands ds (suc i) k d

Stands-ge : (ds : List Device) (i k : ℕ) (d : Device) → Stands ds i k d → i ≤ k
Stands-ge [] i k d h = absurd h
Stands-ge (e ∷ ds) i k d (inl (p, q)) = omega arith
Stands-ge (e ∷ ds) i k d (inr h) = omega (arith, Stands-ge ds (suc i) k d h)

ApartFrom-Stands :
    (r : Range) (ds : List Device) (i k : ℕ) (d : Device)
    → ApartFrom r ds
    → Stands ds i k d
    → Apart r (range d)
ApartFrom-Stands r [] i k d a h = absurd h
ApartFrom-Stands r (e ∷ ds) i k d a (inl (p, q)) = subst (λ x. Apart r (range x)) q a.0
ApartFrom-Stands r (e ∷ ds) i k d a (inr h) = ApartFrom-Stands r ds (suc i) k d a.1 h

Apart-not_in_range :
    (r s : Range) (addr : ℕ) → Apart r s → in_range s addr ≡ true → in_range r addr ≡ false
unfolding in_range
Apart-not_in_range r s addr a h = ground arith

get_device_from-Stands :
    (ds : List Device) (i k addr : ℕ) (d : Device)
    → AllApart ds
    → Stands ds i k d
    → in_range (range d) addr ≡ true
    → get_device_from ds i addr ≡ some (k, d)
unfolding get_device_from
get_device_from-Stands [] i k addr d a h inside = absurd h
get_device_from-Stands (e ∷ ds) i k addr d a (inl (p, q)) inside = ground arith
get_device_from-Stands (e ∷ ds) i k addr d a (inr h) inside =
    let apart = ApartFrom-Stands (range e) ds (suc i) k d a.0 h in
    rw (Apart-not_in_range (range e) (range d) addr apart inside)
      (get_device_from-Stands ds (suc i) k addr d a.1 h inside)

get_device_from_found :
    (ds : List Device) (i k addr : ℕ) (d : Device)
    → get_device_from ds i addr ≡ some (k, d)
    → Stands ds i k d × (in_range (range d) addr ≡ true)
unfolding get_device_from
get_device_from_found [] i k addr d h = cc
get_device_from_found (e ∷ ds) i k addr d h = elim (Bool-cases (in_range (range e) addr)) [
  | inl t ↦ let same : (i ≡ k) × (e ≡ d) = ground arith in (inl same, rw (← same.1) t)
  | inr f ↦
      let (s, inside) = get_device_from_found ds (suc i) k addr d (ground arith) in (inr s, inside)
]

-- In a bus whose ranges have no address in common, `get_device_at` gives a device, with its index in
-- `devices`, exactly when the address is in the range of the device that stands at that index.
pub get_device_at_iff :
    (bus : Bus) (addr k : ℕ) (d : Device)
    → AllApart bus.devices
    → (get_device_at bus addr ≡ some (k, d))
      ↔ (Stands bus.devices 0 k d × (in_range (range d) addr ≡ true))
unfolding get_device_at
get_device_at_iff bus addr k d a = (
  get_device_from_found bus.devices 0 k addr d,
  λ h. get_device_from-Stands bus.devices 0 k addr d a h.0 h.1,
)

-- To change the device at an index, and not its range, changes no range of the bus, and every
-- address reaches the same index as before.
ranges-set :
    (ds : List Device) (i k : ℕ) (d d' : Device)
    → Stands ds i k d
    → range d' ≡ range d
    → map range (set ds (k - i) d') ≡ map range ds
ranges-set [] i k d d' h e = absurd h
ranges-set (x ∷ ds) i k d d' (inl (p, q)) e =
    let z : k - i ≡ 0 = omega arith in rw z (ap (λ t. t ∷ map range ds) (e ∙ ap range (sym q)))
ranges-set (x ∷ ds) i k d d' (inr h) e =
    let s : k - i ≡ suc (k - suc i) = omega (arith, Stands-ge ds (suc i) k d h) in
    rw s (ap (λ t. range x ∷ t) (ranges-set ds (suc i) k d d' h e))

get_device_from-set :
    (ds : List Device) (i k addr : ℕ) (d d' : Device)
    → get_device_from ds i addr ≡ some (k, d)
    → range d' ≡ range d
    → get_device_from (set ds (k - i) d') i addr ≡ some (k, d')
unfolding get_device_from
get_device_from-set [] i k addr d d' h e = cc
get_device_from-set (x ∷ ds) i k addr d d' h e = elim (Bool-cases (in_range (range x) addr)) [
  | inl t ↦
      let same : (i ≡ k) × (x ≡ d) = ground arith in
      let z : k - i ≡ 0 = omega arith in rw (z, e, ← same.1, t, same.0)
  | inr f ↦
      let h' : get_device_from ds (suc i) addr ≡ some (k, d) = ground arith in
      let found = get_device_from_found ds (suc i) k addr d h' in
      let s : k - i ≡ suc (k - suc i) = omega (arith, Stands-ge ds (suc i) k d found.0) in
      rw (s, f) (get_device_from-set ds (suc i) k addr d d' h' e)
]

pub ranges-store :
    (bus : Bus) (k addr : ℕ) (d d' : Device)
    → get_device_at bus addr ≡ some (k, d)
    → range d' ≡ range d
    → map range (store bus k d').devices ≡ map range bus.devices
unfolding get_device_at
ranges-store bus k addr d d' h e =
    let z : k - 0 ≡ k = omega arith in
    subst (λ t. map range (set bus.devices t d') ≡ map range bus.devices) z
      (ranges-set bus.devices 0 k d d' (get_device_from_found bus.devices 0 k addr d h).0 e)

pub get_device_at-store :
    (bus : Bus) (k addr : ℕ) (d d' : Device)
    → get_device_at bus addr ≡ some (k, d)
    → range d' ≡ range d
    → get_device_at (store bus k d') addr ≡ some (k, d')
unfolding get_device_at
get_device_at-store bus k addr d d' h e =
    let z : k - 0 ≡ k = omega arith in
    subst (λ t. get_device_from (set bus.devices t d') 0 addr ≡ some (k, d')) z
      (get_device_from-set bus.devices 0 k addr d d' h e)

-- The counter of transactions plays no part in the address map.
pub get_device_at-numbered :
    (bus : Bus) (n addr : ℕ)
    → get_device_at (record bus { next_id = n }) addr ≡ get_device_at bus addr
unfolding get_device_at
get_device_at-numbered bus n addr = refl
