-- ===== src/JobController/Memory.antt =====
-- `parseMemoryString` and `buildDockerResources` of dockerjob/reconciler.go. `fmt.Sscanf` at `%d` reads
-- a sign and the digits that follow, and leaves 0 behind where it fails.
use k8s_docker_operator.Prelude.{
  ℕ, ◌+◌, ◌-◌, ◌*◌, Bool, true, false, ◌&&◌, ◌||◌, Option, none, some, List, [], ◌∷◌, leb, ltb,
  ◌==◌, if◌then◌else◌, str_eq,
}
use k8s_docker_operator.Prelude.Int.{ℤ, pos, negsuc, ◌*ℤ◌, int64}
use k8s_docker_operator.Prelude.Text.{codes, trim_space, cut_suffix}
use k8s_docker_operator.Api.Container.{ResourceRequirements}
use k8s_docker_operator.Outside.Docker.{Resources}
use k8s_docker_operator.Outside.Calls.{Libraries}

abbrev pub is_digit : ℕ → Bool
is_digit c = leb b'0' c && leb c b'9'

-- The digits at the front of a text.
unfoldable pub span_digits : List ℕ → List ℕ
span_digits [] = []
span_digits (c ∷ s) = let rest = span_digits s in if is_digit c then c ∷ rest else []

-- The value of a text of digits.
unfoldable pub number_of : ℕ → List ℕ → ℕ
number_of n [] = n
number_of n (c ∷ s) = number_of (n * 10 + (c - b'0')) s

-- A signed number in 64 bits, or nothing where it does not fit (`strconv.ParseInt` on digits).
unfoldable pub in_range : Bool → ℕ → Option ℤ
in_range negative n =
    if negative
    then (if leb n 9223372036854775808
        then some (if n == 0 then pos 0 else negsuc (n - 1))
        else none)
    else (if ltb n 9223372036854775808 then some (pos n) else none)

abbrev pub is_empty : List ℕ → Bool
is_empty [] = true
is_empty (c ∷ s) = false

abbrev pub is_minus : List ℕ → Bool
is_minus [] = false
is_minus (c ∷ s) = c == b'-'

-- A sign at the front is dropped.
abbrev pub unsigned : List ℕ → List ℕ
unsigned [] = []
unsigned (c ∷ s) = if c == b'-' || c == b'+' then s else c ∷ s

abbrev pub or_zero : Option ℤ → ℤ
or_zero none = pos 0
or_zero (some z) = z

-- What `fmt.Sscanf(s, "%d", &val)` leaves in `val`, which was 0.
unfoldable pub scan_int : List ℕ → ℤ
unfolding span_digits number_of in_range
scan_int s =
    let front = span_digits (unsigned s) in
    if is_empty front then pos 0 else or_zero (in_range (is_minus s) (number_of 0 front))

-- The unit and the text before it.
unfoldable pub split_unit : List ℕ → ℤ × List ℕ
unfolding cut_suffix
split_unit s = elim (cut_suffix b'g' s) [
  | some front ↦ (pos 1073741824, front)
  | none ↦ elim (cut_suffix b'm' s) [
    | some front ↦ (pos 1048576, front)
    | none ↦ elim (cut_suffix b'k' s) [ some front ↦ (pos 1024, front) | none ↦ (pos 1, s) ]
  ]
]

module _ {F : Type 0} (libs : Libraries F) where
  unfoldable pub parse_memory_string : List ℕ → ℤ
  unfolding trim_space split_unit scan_int ◌*ℤ◌ int64
  parse_memory_string text =
      let s = trim_space (libs.lower_codes text) in
      let parsed = split_unit s in
      if is_empty s then pos 0 else int64 (scan_int parsed.1 *ℤ parsed.0)

  -- A text that is no number leaves `cpuFloat` at what `Sscanf` read of it.
  unfoldable pub build_docker_resources : ResourceRequirements → Resources
  unfolding parse_memory_string
  build_docker_resources r = record {
    nano_cpus = if str_eq r.cpu_limit "" then pos 0 else libs.nano_of (libs.scan_float r.cpu_limit);
    memory = if str_eq r.memory_limit "" then pos 0 else parse_memory_string (codes r.memory_limit);
  }
