-- ===== src/ContainerController/Limits.antt =====
-- The two readings of a memory limit: `parseMemoryString` of dockercontainer/reconciler.go (strconv.ParseInt)
-- and of dockerjob/reconciler.go (fmt.Sscanf).
use k8s_docker_operator.Prelude.{
  ℕ, ◌≡◌, refl, sym, ap, ◌∙◌, Bool, true, false, ◌&&◌, ◌||◌, Option, none, some, List, [], ◌∷◌,
  if◌then◌else◌, arith,
}
use k8s_docker_operator.Prelude.Int.{ℤ, pos, ◌*ℤ◌, int64}
use k8s_docker_operator.Prelude.Text.{trim_space}
use k8s_docker_operator.Exec.{given}
use k8s_docker_operator.Outside.Calls.{Libraries}
use k8s_docker_operator.JobController.Memory
use k8s_docker_operator.JobController.Memory.{
  is_digit, span_digits, number_of, in_range, is_empty, is_minus, unsigned, or_zero, scan_int,
  split_unit,
}
use k8s_docker_operator.ContainerController.Drift.{all_digits, parse_int, parse_memory_string}

and_true : (a b : Bool) → (a && b) ≡ true → (a ≡ true) × (b ≡ true)
and_true a b h = ground arith

span_digits-all_digits : (s : List ℕ) → all_digits s ≡ true → span_digits s ≡ s
unfolding span_digits all_digits
span_digits-all_digits [] h = refl
span_digits-all_digits (c ∷ s) h =
    let both = and_true (is_digit c) (all_digits s) h in
    rw (both.0, span_digits-all_digits s both.1) refl

zero_if :
    (empty : Bool) (x : Option ℤ)
    → (if empty then pos 0 else or_zero x) ≡ or_zero (if empty || false then none else x)
zero_if true x = refl
zero_if false x = refl

-- A text of digits behind a sign is read the same.
scan_int-parse_int :
    (s : List ℕ) → all_digits (unsigned s) ≡ true → scan_int s ≡ or_zero (parse_int s)
unfolding scan_int parse_int
scan_int-parse_int s h =
    rw (span_digits-all_digits (unsigned s) h, h) (zero_if (is_empty (unsigned s)) _)

parse_int-no_digits : (s : List ℕ) → all_digits (unsigned s) ≡ false → parse_int s ≡ none
unfolding parse_int
parse_int-no_digits s h = rw h (ground arith)

module _ {F : Type 0} (libs : Libraries F) where
  -- What stands before the unit.
  abbrev pub amount : List ℕ → List ℕ
  amount text = (split_unit (trim_space (libs.lower_codes text))).1

  scaled : (o : Option ℤ) (u : ℤ) → given o (λ v. int64 (v *ℤ u)) (pos 0) ≡ int64 (or_zero o *ℤ u)
  unfolding given int64 ◌*ℤ◌
  scaled none u = ground arith
  scaled (some v) u = refl

  -- For an amount of digits behind at most one sign, be it in range or not, the limit of a container is that of a
  -- job.
  pub parse_memory_string-agrees :
      (text : List ℕ)
      → all_digits (unsigned (amount text)) ≡ true
      → parse_memory_string libs text ≡ Memory.parse_memory_string libs text
  unfolding parse_memory_string Memory.parse_memory_string
  parse_memory_string-agrees text h =
      let s = trim_space (libs.lower_codes text) in
      let unit = (split_unit s).0 in
      ap (λ (z : ℤ). if is_empty s then pos 0 else z)
        (scaled (parse_int (amount text)) unit
          ∙ ap (λ v. int64 (v *ℤ unit)) (sym (scan_int-parse_int (amount text) h)))

  -- For any other amount the limit of a container is 0, which is no limit, whatever that of a job is.
  parse_memory_string-zero :
      (text : List ℕ)
      → all_digits (unsigned (amount text)) ≡ false
      → parse_memory_string libs text ≡ pos 0
  unfolding parse_memory_string given
  parse_memory_string-zero text h =
      ap
        (λ (o : Option ℤ).
          if is_empty (trim_space (libs.lower_codes text))
          then pos 0
          else given o (λ v. int64 (v *ℤ (split_unit (trim_space (libs.lower_codes text))).0))
              (pos 0))
        (parse_int-no_digits (amount text) h)
      ∙ none_left (is_empty (trim_space (libs.lower_codes text)))
    where
      none_left : (empty : Bool) → (if empty then pos 0 else pos 0) ≡ pos 0
      none_left true = refl
      none_left false = refl
