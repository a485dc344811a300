-- ===== src/Hygiene/Assess.antt =====
-- errander/agent/subgraphs/docker_hygiene.py: the reading of what the assess wrapper prints.
pub mod Classified
use errander_ai.Common.{
  ℕ, String, Bool, true, false, not, ◌&&◌, ◌||◌, Option, none, some, List, [], ◌∷◌, ◌++◌, map,
  str_eq, if◌then◌else◌, ℤ, strip, splitlines, split, partition, after_prefix,
}
use errander_ai.Hygiene.{ResourceClass, parse_class, Finding, Assessment, truthy, is_nil}
use errander_ai.Hygiene.Rules.{Config, build_finding}

-- `_parse_kv_line`.
kv_tokens : List String → List (String × String) → List (String × String)
kv_tokens [] kv = kv
kv_tokens (t ∷ ts) kv =
    kv_tokens ts
      (elim (partition b'=' t) [ none ↦ kv | some (key, value) ↦ (strip key, strip value) ∷ kv ])

unfoldable pub parse_kv_line : String → List (String × String)
unfolding kv_tokens partition strip split
parse_kv_line line = kv_tokens (split line) []

-- The variables of the loop of `parse_assess_v2_output`.
pub record Reading : Type 0 where
  pub reachable : Bool
  pub error : Option String
  pub findings : List Finding
  pub current_class : Option ResourceClass
  pub in_block : Bool

abbrev pub start : Reading
start = record {
  reachable = true;
  error = none;
  findings = [];
  current_class = none;
  in_block = false;
}

abbrev pub add_finding : Option Finding → Reading → Reading
add_finding none r = r
add_finding (some f) r = record r { findings = r.findings ++ f ∷ [] }

-- `lower` is Python's `str.lower`.
module _ (lower : String → String) where
  -- A line before the block: `reachable=` and `error=`.
  abbrev pub read_field : String × String → Reading → Reading
  read_field (key, value) r =
      let l = lower value in
      if str_eq key "reachable"
      then record r { reachable = str_eq l "yes" || str_eq l "true" || str_eq l "1" }
      else if str_eq key "error"
      then record r { error = truthy (some value) }
      else r

  abbrev pub read_header : Option (String × String) → Reading → Reading
  read_header none r = r
  read_header (some (key, value)) r = read_field (strip key, strip value) r

-- A line of the block that names no class; `int` is Python's.
unfoldable pub read_object :
    (String → Option ℤ) → Config → Option ResourceClass → List (String × String) → Reading → Reading
read_object int cfg none kv r = r
read_object int cfg (some c) kv r =
    if is_nil kv then r else add_finding (build_finding int cfg c kv) r

abbrev pub read_class : Option String → Reading → Reading → Reading
read_class none r other = other
read_class (some value) r other = record r { current_class = parse_class (strip value) }

module _ (int : String → Option ℤ) (lower : String → String) (cfg : Config) where
  -- One line, stripped.
  unfoldable pub read_line : String → Reading → Reading
  read_line line r =
      if str_eq line ""
      then r
      else if str_eq line "docker_hygiene_begin"
      then record r { in_block = true }
      else if str_eq line "docker_hygiene_end"
      then record r { in_block = false }
      else if not r.in_block
      then read_header lower (partition b'=' line) r
      else read_class (after_prefix "class=" line) r
          (read_object int cfg r.current_class (parse_kv_line line) r)

  unfoldable pub read_lines : List String → Reading → Reading
  read_lines [] r = r
  read_lines (line ∷ lines) r = read_lines lines (read_line (strip line) r)

  unfoldable pub parse_assess_v2_output : String → String → Assessment
  unfolding read_lines read_line read_object parse_kv_line partition after_prefix strip splitlines
      parse_class build_finding
  parse_assess_v2_output vm_id stdout =
      let r = read_lines (splitlines stdout) start in
      record { vm_id = vm_id; findings = r.findings; reachable = r.reachable; error = r.error }
