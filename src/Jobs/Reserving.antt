-- ===== src/Jobs/Reserving.antt =====
-- The ports of Jobs.Ports are the first free ones of the range, and there are none only where the
-- range has too few.
use microtensor_compute.Common.{
  ℕ, zero, suc, ◌+◌, ◌-◌, ◌≤◌, ◌<◌, ◌≡◌, refl, ap, subst, inl, inr, ◌||◌, true, false, List, [],
  ◌∷◌, Option, none, some, if◌then◌else◌, ltb, contains, length, nat_eq, arith, Bool-cases,
  Option-cases,
}
use microtensor_compute.Jobs.Names.{range_of}
use microtensor_compute.Jobs.Spec.{JobSpec, PortMapping, tcp}
use microtensor_compute.Jobs.Ports.{
  checked_range, parse_range, next_free, put_mapping, assign, PortProblem, range_not_usable,
  no_free_port, reserved_or, reserve_in, has_ports, reserve, IsReserved,
}

-- How many of so many ports from one on nothing listens on.
unfoldable pub free_count : ℕ → List ℕ → ℕ → ℕ
unfolding contains
free_count zero busy candidate = 0
free_count (suc n) busy candidate =
    let rest = free_count n busy (candidate + 1) in
    if contains candidate busy then rest else suc rest

-- The port found is free, and the ports that were passed over are not.
abbrev FindsFree : ℕ → List ℕ → ℕ → ℕ → Option ℕ → Type 0
FindsFree fuel busy high candidate none = free_count fuel busy candidate ≡ 0
FindsFree fuel busy high candidate (some port) =
    (candidate ≤ port)
    × (port ≤ high)
    × (contains port busy ≡ false)
    × (free_count fuel busy candidate ≡ suc (free_count (high - port) busy (port + 1)))

passed_over :
    (fuel : ℕ) (busy : List ℕ) (high candidate : ℕ) (found : Option ℕ)
    → contains candidate busy ≡ true
    → FindsFree fuel busy high (candidate + 1) found
    → FindsFree (suc fuel) busy high candidate found
unfolding free_count
passed_over fuel busy high candidate none c f = rw c f
passed_over fuel busy high candidate (some port) c f = (omega (arith, f.0), f.1, f.2, rw c f.3)

taken :
    (fuel : ℕ) (busy : List ℕ) (high candidate : ℕ)
    → suc fuel ≡ suc high - candidate
    → contains candidate busy ≡ false
    → FindsFree (suc fuel) busy high candidate (some candidate)
unfolding free_count
taken fuel busy high candidate e c = (
  omega arith,
  omega (arith, e),
  c,
  rw c (ap (λ n. suc (free_count n busy (candidate + 1))) (omega (arith, e))),
)

next_free-FindsFree :
    (fuel : ℕ) (busy : List ℕ) (high candidate : ℕ)
    → fuel ≡ suc high - candidate
    → FindsFree fuel busy high candidate (next_free fuel busy high candidate)
unfolding next_free
next_free-FindsFree zero busy high candidate e = unfold free_count in refl
next_free-FindsFree (suc fuel) busy high candidate e =
    let inside : ltb high candidate ≡ false = ground (arith, e) in
    elim (Bool-cases (contains candidate busy)) [
      | inl c ↦
          rw (inside, c, next_free)
            (passed_over fuel busy high candidate (next_free fuel busy high (candidate + 1)) c
              (next_free-FindsFree fuel busy high (candidate + 1) (omega (arith, e))))
      | inr c ↦ rw (inside, c, next_free) (taken fuel busy high candidate e c)
    ]

-- What an assignment of the wanted ports is: each on a free port, or too few are free.
abbrev Assigns : List ℕ → ℕ → ℕ → List ℕ → Option (List PortMapping) → Type 0
Assigns busy high candidate wanted none =
    free_count (suc high - candidate) busy candidate < length wanted
Assigns busy high candidate wanted (some mappings) = IsReserved busy candidate high wanted mappings

put_mapping-Assigns :
    (busy : List ℕ) (high candidate port want : ℕ) (wanted : List ℕ)
    (rest : Option (List PortMapping))
    → FindsFree (suc high - candidate) busy high candidate (some port)
    → Assigns busy high (port + 1) wanted rest
    → Assigns busy high candidate
        (want ∷ wanted)
        (put_mapping (record { host = port; container = want; protocol = tcp }) rest)
put_mapping-Assigns busy high candidate port want wanted none f a =
    let same : suc high - (port + 1) ≡ high - port = omega arith in
    omega (arith, f.3, subst (λ n. free_count n busy (port + 1) < length wanted) same a)
put_mapping-Assigns busy high candidate port want wanted (some mappings) f a =
    (refl, f.0, f.1, f.2, subst (λ n. IsReserved busy n high wanted mappings) (omega arith) a)

assign-Assigns :
    (busy : List ℕ) (high candidate : ℕ) (wanted : List ℕ)
    → Assigns busy high candidate wanted (assign busy high candidate wanted)
unfolding assign
assign-Assigns busy high candidate [] = tt
assign-Assigns busy high candidate (want ∷ wanted) =
    let found = next_free-FindsFree (suc high - candidate) busy high candidate refl in
    elim (Option-cases (next_free (suc high - candidate) busy high candidate)) [
      | inl e ↦
          rw (e, assign)
            (omega (arith, subst (FindsFree (suc high - candidate) busy high candidate) e found))
      | inr (port, e) ↦
          rw (e, assign)
            (put_mapping-Assigns busy high candidate port want wanted
              (assign busy high (port + 1) wanted)
              (subst (FindsFree (suc high - candidate) busy high candidate) e found)
              (assign-Assigns busy high (port + 1) wanted))
    ]

-- What reserve_ports answers to a job that asks for container ports and brings no mappings.
abbrev pub IsReservation :
    List ℕ → JobSpec → Option (ℕ × ℕ) → List PortMapping × Option PortProblem → Type 0
IsReservation busy spec none (ports, problem) =
    (ports ≡ []) × (problem ≡ some (range_not_usable spec.port_range))
IsReservation busy spec (some (low, high)) (ports, none) =
    (1 ≤ low) × (high ≤ 65535) × IsReserved busy low high spec.container_ports ports
IsReservation busy spec (some (low, high)) (ports, some problem) =
    (problem ≡ no_free_port)
    × (ports ≡ [])
    × (free_count (suc high - low) busy low < length spec.container_ports)

-- Where a job asks for container ports and brings no mappings, each of them is on a port of its own
-- in the given range, within 1 and 65535, on which nothing listens; there are none only where the
-- range is not usable, or fewer of its ports are free than are asked for.
pub reserve-IsReservation :
    (spec : JobSpec) (busy : List ℕ)
    → has_ports spec ≡ false
    → IsReservation busy spec (parse_range spec.port_range) (reserve spec busy)
unfolding reserve
reserve-IsReservation spec busy h =
    rw (h, reserve) (in_range (parse_range spec.port_range) (checked (range_of spec.port_range)))
  where
    InBounds : Option (ℕ × ℕ) → Type 0
    InBounds none = Unit {0}
    InBounds (some (low, high)) = (1 ≤ low) × (high ≤ 65535)

    checked : (range : Option (ℕ × ℕ)) → InBounds (checked_range range)
    checked none = tt
    checked (some (low, high)) = elim (Bool-cases (ltb low 1 || ltb 65535 high || ltb high low)) [
      | inl e ↦ rw e tt
      | inr e ↦ rw e (ground (arith, e), ground (arith, e))
    ]

    assigned :
        (low high : ℕ) (found : Option (List PortMapping))
        → (1 ≤ low) × (high ≤ 65535)
        → Assigns busy high low spec.container_ports found
        → IsReservation busy spec (some (low, high)) (reserved_or found)
    assigned low high none b a = (refl, refl, a)
    assigned low high (some mappings) b a = (b.0, b.1, a)

    in_range :
        (range : Option (ℕ × ℕ))
        → InBounds range
        → IsReservation busy spec range (reserve_in range spec busy)
    in_range none b = (refl, refl)
    in_range (some (low, high)) b =
        assigned low high (assign busy high low spec.container_ports) b
          (assign-Assigns busy high low spec.container_ports)
