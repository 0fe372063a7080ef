-- ===== src/Jobs/Ports.antt =====
-- parse_range, used_ports and reserve_ports of validator/work/containers.py: the host ports that a
-- job gets.
use microtensor_compute.Common.{
  ℕ, zero, suc, ◌+◌, ◌-◌, ◌≤◌, ◌≡◌, ◌||◌, not, Bool, false, List, [], ◌∷◌, Option, none, some,
  if◌then◌else◌, ltb, is_empty, contains, nat_eq,
}
use microtensor_compute.Common.Text.{Text, codes, after_last, split_words}
use microtensor_compute.Jobs.Names.{range_of, digits_value}
use microtensor_compute.Jobs.Spec.{JobSpec, PortMapping, tcp}

abbrev pub checked_range : Option (ℕ × ℕ) → Option (ℕ × ℕ)
checked_range none = none
checked_range (some (low, high)) =
    if ltb low 1 || ltb 65535 high || ltb high low then none else some (low, high)

unfoldable pub parse_range : Text → Option (ℕ × ℕ)
unfolding range_of
parse_range text = checked_range (range_of text)

-- The port of `^.*:(\d+)$` in a word of the listing.
abbrev pub port_of : Option Text → Option ℕ
port_of none = none
port_of (some digits) = digits_value digits

abbrev pub add_port : Option ℕ → List ℕ → List ℕ
add_port none ports = ports
add_port (some port) ports = port ∷ ports

unfoldable pub ports_in : List Text → List ℕ
unfolding after_last digits_value
ports_in [] = []
ports_in (word ∷ words) = add_port (port_of (after_last (codes ":") word)) (ports_in words)

-- The ports that are listened on, by the listing. Lines are read word by word, so the words of the
-- whole text are those of its lines.
unfoldable pub used_ports : Text → List ℕ
unfolding ports_in split_words
used_ports stdout = ports_in (split_words stdout)

-- `while candidate <= span[1] and candidate in busy`, on fuel: none where the span is used up.
unfoldable pub next_free : ℕ → List ℕ → ℕ → ℕ → Option ℕ
unfolding contains
next_free zero busy high candidate = none
next_free (suc fuel) busy high candidate =
    let rest = next_free fuel busy high (candidate + 1) in
    if ltb high candidate then none else if contains candidate busy then rest else some candidate

abbrev pub put_mapping : PortMapping → Option (List PortMapping) → Option (List PortMapping)
put_mapping mapping none = none
put_mapping mapping (some rest) = some (mapping ∷ rest)

-- The loop over the container's ports; none where no free port is left. A span of so many ports
-- needs one turn more to be used up.
unfoldable pub assign : List ℕ → ℕ → ℕ → List ℕ → Option (List PortMapping)
unfolding next_free
assign busy high candidate [] = some []
assign busy high candidate (wanted ∷ rest) =
    elim (next_free (suc high - candidate) busy high candidate) [
      | none ↦ none
      | some port ↦
          put_mapping (record { host = port; container = wanted; protocol = tcp })
            (assign busy high (port + 1) rest)
    ]

pub data PortProblem : Type 0 where
  range_not_usable : Text → PortProblem
  no_free_port : PortProblem

abbrev pub reserved_or : Option (List PortMapping) → List PortMapping × Option PortProblem
reserved_or none = ([], some no_free_port)
reserved_or (some mappings) = (mappings, none)

-- reserve_ports once the listing is known; it is asked for only where the span is usable.
abbrev pub reserve_in : Option (ℕ × ℕ) → JobSpec → List ℕ → List PortMapping × Option PortProblem
reserve_in none spec busy = ([], some (range_not_usable spec.port_range))
reserve_in (some (low, high)) spec busy = reserved_or (assign busy high low spec.container_ports)

abbrev pub has_ports : JobSpec → Bool
has_ports spec = not (is_empty spec.ports) || is_empty spec.container_ports

unfoldable pub reserve : JobSpec → List ℕ → List PortMapping × Option PortProblem
unfolding assign parse_range
reserve spec busy =
    if has_ports spec
    then (spec.ports, none)
    else reserve_in (parse_range spec.port_range) spec busy

-- What is right of the reserved mappings: one for each of the container's ports, in their order, on
-- host ports that ascend from `low` to `high` and that nothing listens on.
abbrev pub IsReserved : List ℕ → ℕ → ℕ → List ℕ → List PortMapping → Type 0
IsReserved busy low high [] [] = Unit {0}
IsReserved busy low high [] (m ∷ ms) = ⊥
IsReserved busy low high (w ∷ ws) [] = ⊥
IsReserved busy low high (w ∷ ws) (m ∷ ms) =
    (m.container ≡ w)
    × (low ≤ m.host)
    × (m.host ≤ high)
    × (contains m.host busy ≡ false)
    × IsReserved busy (suc m.host) high ws ms
