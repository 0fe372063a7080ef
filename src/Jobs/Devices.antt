-- ===== src/Jobs/Devices.antt =====
-- parse_device_probe and device_nodes of validator/work/containers.py: the device files of the
-- cards of a job, from what nvidia-smi, /proc and /dev tell.
use microtensor_compute.Common.{
  ℕ, ◌-◌, ◌&&◌, ◌||◌, Bool, true, false, List, [], ◌∷◌, ◌++◌, Option, none, some, Dict,
  if◌then◌else◌, leb, eqb, is_empty, contains, map, lookup, insert, keep_if, any_of, drop, length,
}
use microtensor_compute.Common.Text.{
  Text, codes, text_eq, text_instance, starts_with, strip, lstrip, lower,
}
use microtensor_compute.Jobs.Names.{is_digit, decimal, digits_value, split_at}
use microtensor_compute.Jobs.Remote.{tail_of}

-- `text.splitlines()`: the line that is being read, and whether it has begun.
abbrev pub is_break : ℕ → Bool
is_break c =
    (leb 10 c && leb c 13) || (leb 28 c && leb c 30) || eqb c 0x85 || eqb c 0x2028 || eqb c 0x2029

abbrev pub starts_newline : Text → Bool
starts_newline [] = false
starts_newline (c ∷ cs) = eqb c 10

unfoldable pub lines_from : Text → Text → List Text
lines_from line [] = if is_empty line then [] else line ∷ []
lines_from line (c ∷ cs) = elim (is_break c) [
  | true ↦ elim (eqb c 13 && starts_newline cs) [
    | true ↦ lines_from line cs
    | false ↦ line ∷ lines_from [] cs
  ]
  | false ↦ lines_from (line ++ c ∷ []) cs
]

unfoldable pub lines_of : Text → List Text
unfolding lines_from
lines_of = lines_from []

-- `text.split(part)` for a part that is not empty; `skip` characters belong to a part that was
-- read.
unfoldable pub pieces_from : Text → ℕ → Text → Text → List Text
unfolding starts_with
pieces_from part skip piece [] = piece ∷ []
pieces_from part skip piece (c ∷ cs) = elim (leb 1 skip) [
  | true ↦ pieces_from part (skip - 1) piece cs
  | false ↦ elim (starts_with part (c ∷ cs)) [
    | true ↦ piece ∷ pieces_from part (length part - 1) [] cs
    | false ↦ pieces_from part 0 (piece ++ c ∷ []) cs
  ]
]

unfoldable pub pieces : Text → Text → List Text
unfolding pieces_from
pieces part text = pieces_from part 0 [] text

unfoldable pub normalise_bus : Text → Text
unfolding strip tail_of
normalise_bus text = tail_of 12 (lower (strip text))

-- The turns of the three loops of parse_device_probe.
abbrev pub add_bus : List Text → Dict Text Text → Dict Text Text
add_bus (uuid ∷ bus ∷ []) found =
    if starts_with (codes "GPU-") uuid then insert uuid (normalise_bus bus) found else found
add_bus _ found = found

unfoldable pub buses_in : List Text → Dict Text Text → Dict Text Text
unfolding pieces strip starts_with insert normalise_bus text_eq
buses_in [] found = found
buses_in (line ∷ lines) found = buses_in lines (add_bus (map strip (pieces (codes ",") line)) found)

unfoldable pub leading_digits : Text → Text
leading_digits [] = []
leading_digits (c ∷ cs) = if is_digit c then c ∷ leading_digits cs else []

-- What follows a part that the text starts with, after white space.
unfoldable pub after_word : Text → Text → Option Text
unfolding starts_with lstrip
after_word part text =
    if starts_with part text then some (lstrip (drop (length part) text)) else none

abbrev pub then_text {ℓ} : {A : Type ℓ} → Option A → (A → Option ℕ) → Option ℕ
then_text none f = none
then_text (some a) f = f a

-- `information:\s*Device Minor:\s*(\d+)`
unfoldable pub minor_of : Text → Option ℕ
unfolding after_word leading_digits digits_value
minor_of rest = then_text (after_word (codes "information:") rest) (λ label.
    then_text (after_word (codes "Device Minor:") label)
      (λ digits. digits_value (leading_digits digits)))

-- `^/proc/driver/nvidia/gpus/([^/]+)/information:...`: the bus and the minor number.
abbrev pub information : Text
information = codes "/proc/driver/nvidia/gpus/"

abbrev pub minor_under : Option (Text × Text) → Option (Text × ℕ)
minor_under none = none
minor_under (some parts) =
    if is_empty parts.0
    then none
    else elim (minor_of parts.1) [ none ↦ none | some minor ↦ some (parts.0, minor) ]

unfoldable pub minor_line : Text → Option (Text × ℕ)
unfolding starts_with split_at minor_of
minor_line line =
    if starts_with information line
    then minor_under (split_at b'/' (drop (length information) line))
    else none

abbrev pub add_minor : Option (Text × ℕ) → Dict Text ℕ → Dict Text ℕ
add_minor none found = found
add_minor (some (bus, minor)) found = insert (normalise_bus bus) minor found

unfoldable pub minors_in : List Text → Dict Text ℕ → Dict Text ℕ
unfolding minor_line strip insert normalise_bus text_eq
minors_in [] found = found
minors_in (line ∷ lines) found = minors_in lines (add_minor (minor_line (strip line)) found)

unfoldable pub nodes_in : List Text → List Text
unfolding keep_if starts_with strip
nodes_in lines = keep_if (starts_with (codes "/dev/")) (map strip lines)

abbrev pub nth_lines : ℕ → List Text → List Text
nth_lines n sections = elim (drop n sections) [ [] ↦ [] | section ∷ rest ↦ lines_of section ]

pub record DeviceProbe : Type 0 where
  pub bus_by_uuid : Dict Text Text
  pub minor_by_bus : Dict Text ℕ
  pub nodes : List Text

unfoldable pub parse_device_probe : Text → DeviceProbe
unfolding buses_in minors_in nodes_in pieces lines_of
parse_device_probe stdout =
    let sections = pieces (codes "---") stdout in
    record {
      bus_by_uuid = buses_in (nth_lines 0 sections) [];
      minor_by_bus = minors_in (nth_lines 1 sections) [];
      nodes = nodes_in (nth_lines 2 sections);
    }

pub data DeviceProblem : Type 0 where
  unreachable : Text → DeviceProblem
  unresolved : Text → DeviceProblem
  absent : Text → Text → DeviceProblem

abbrev pub node_of : ℕ → Text
node_of minor = codes "/dev/nvidia" ++ decimal minor

-- The minor number of a card; a card without a bus has none.
abbrev pub minor_at : DeviceProbe → Option Text → Option ℕ
minor_at probe none = none
minor_at probe (some bus) = lookup bus probe.minor_by_bus

-- The loop over the cards: their nodes in their order, or the first card without one.
unfoldable pub card_nodes : DeviceProbe → List Text → List Text × Option DeviceProblem
unfolding lookup contains text_eq decimal
card_nodes probe [] = ([], none)
card_nodes probe (uuid ∷ uuids) =
    let (chosen, problem) = card_nodes probe uuids in
    elim (minor_at probe (lookup uuid probe.bus_by_uuid)) [
      | none ↦ ([], some (unresolved uuid))
      | some minor ↦
          if contains (node_of minor) probe.nodes
          then (node_of minor ∷ chosen, problem)
          else ([], some (absent (node_of minor) uuid))
    ]

abbrev pub shared_nodes : List Text
shared_nodes =
    codes "/dev/nvidiactl"
    ∷ codes "/dev/nvidia-uvm"
    ∷ codes "/dev/nvidia-uvm-tools"
    ∷ codes "/dev/nvidia-modeset"
    ∷ []

abbrev pub host_wide_dirs : List Text
host_wide_dirs = codes "/dev/nvidia-caps" ∷ codes "/dev/infiniband" ∷ []

abbrev pub is_host_wide : Text → Bool
is_host_wide node = any_of (λ directory. starts_with (directory ++ codes "/") node) host_wide_dirs

abbrev pub with_shared :
    DeviceProbe → Bool → List Text × Option DeviceProblem → List Text × Option DeviceProblem
with_shared probe whole_node (chosen, some problem) = ([], some problem)
with_shared probe whole_node (chosen, none) = (
  chosen
      ++ keep_if (λ node. contains node probe.nodes) shared_nodes
      ++ (if whole_node then keep_if is_host_wide probe.nodes else []),
  none,
)

-- device_nodes once the probe has answered.
unfoldable pub device_nodes : List Text → Bool → DeviceProbe → List Text × Option DeviceProblem
unfolding card_nodes keep_if any_of contains text_eq starts_with
device_nodes uuids whole_node probe = with_shared probe whole_node (card_nodes probe uuids)
