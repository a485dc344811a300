-- ===== src/Restart.antt =====
-- errander/agent/subgraphs/service_restart.py: the reading of what the wrapper prints, and in
-- errander/execution/command_builder.py the test of a unit's name.
pub mod Allowed
pub mod Graph
use Prim.Native.Char.{code}
use Prim.Native.String
use errander_ai.Common.{
  ℕ, String, Bool, true, false, not, ◌&&◌, ◌||◌, Option, none, some, List, [], ◌∷◌, ◌++◌, str_eq,
  leb, ◌==◌, if◌then◌else◌, any, splitlines, rstrip, strip, contains_text, rpartition, join_lines,
}
use errander_ai.Vm.{ActionStatus, status_pending, dry_run_ok, success, failed}

-- `RestartContext`.
pub record RestartContext : Type 0 where
  pub pre_status : String
  pub pre_journal : String
  pub post_active : String
  pub post_status : String
  pub post_journal : String

pub data Section : Type 0 where
  in_pre_status in_pre_journal in_post_active in_post_status in_post_journal : Section

-- `begin_to_field` and `end_markers`.
unfoldable pub section_of : String → Option Section
section_of line =
    if str_eq line "pre_status_begin"
    then some in_pre_status
    else if str_eq line "pre_journal_begin"
    then some in_pre_journal
    else if str_eq line "post_active_begin"
    then some in_post_active
    else if str_eq line "post_status_begin"
    then some in_post_status
    else if str_eq line "post_journal_begin"
    then some in_post_journal
    else none

abbrev pub is_end : String → Bool
is_end line =
    str_eq line "pre_status_end"
    || str_eq line "pre_journal_end"
    || str_eq line "post_active_end"
    || str_eq line "post_status_end"
    || str_eq line "post_journal_end"

-- The lines of each section that have been read.
pub record Sections : Type 0 where
  pub pre_status : List String
  pub pre_journal : List String
  pub post_active : List String
  pub post_status : List String
  pub post_journal : List String

abbrev pub add_line : Section → String → Sections → Sections
add_line in_pre_status l s = record s { pre_status = s.pre_status ++ l ∷ [] }
add_line in_pre_journal l s = record s { pre_journal = s.pre_journal ++ l ∷ [] }
add_line in_post_active l s = record s { post_active = s.post_active ++ l ∷ [] }
add_line in_post_status l s = record s { post_status = s.post_status ++ l ∷ [] }
add_line in_post_journal l s = record s { post_journal = s.post_journal ++ l ∷ [] }

abbrev pub in_section : Option Section → String → Sections → Sections
in_section none line s = s
in_section (some c) line s = add_line c line s

abbrev pub at_line : Option Section → Option Section → String → Sections → Option Section × Sections
at_line (some begun) current line s = (some begun, s)
at_line none current line s =
    if is_end line then (none, s) else (current, in_section current line s)

unfoldable pub read_sections : List String → Option Section × Sections → Sections
read_sections [] (current, s) = s
read_sections (raw ∷ lines) (current, s) =
    read_sections lines (at_line (section_of (rstrip raw)) current (rstrip raw) s)

unfoldable pub parse_restart_output : String → RestartContext
unfolding read_sections section_of rstrip splitlines join_lines
parse_restart_output stdout =
    let s = read_sections (splitlines stdout) (
      none,
      record {
        pre_status = [];
        pre_journal = [];
        post_active = [];
        post_status = [];
        post_journal = [];
      },
    ) in
    record {
      pre_status = join_lines s.pre_status;
      pre_journal = join_lines s.pre_journal;
      post_active = join_lines s.post_active;
      post_status = join_lines s.post_status;
      post_journal = join_lines s.post_journal;
    }

-- `safe_systemd_unit_name` of errander/execution/command_builder.py: whether it accepts a name.
abbrev is_metachar : ℕ → Bool
is_metachar c =
    c == b';'
    || c == b'&'
    || c == b'|'
    || c == b'`'
    || c == b'$'
    || c == b'('
    || c == b')'
    || c == b'{'
    || c == b'}'
    || c == 92
    || c == b'!'
    || c == b'<'
    || c == b'>'

has_metachar : String → Bool
has_metachar String.[] = false
has_metachar (String.◌∷◌ c s) = is_metachar (code c) || has_metachar s

abbrev is_unit_char : ℕ → Bool
is_unit_char c =
    (leb b'a' c && leb c b'z')
    || (leb b'A' c && leb c b'Z')
    || (leb b'0' c && leb c b'9')
    || c == b'@'
    || c == b':'
    || c == b'_'
    || c == b'.'
    || c == b'-'

all_unit_chars : String → Bool
all_unit_chars String.[] = true
all_unit_chars (String.◌∷◌ c s) = is_unit_char (code c) && all_unit_chars s

-- The type suffixes; `$` of the pattern also matches before a line feed that ends the text.
abbrev unit_types : List String
unit_types =
    "service" ∷ "socket" ∷ "timer" ∷ "target" ∷ "mount" ∷ "path" ∷ "slice" ∷ "scope" ∷ "swap"
    ∷ "automount" ∷ "device" ∷ []

is_unit_type : String → Bool
is_unit_type t = any (λ u. str_eq t u || str_eq t (String.◌++◌ u "\n")) unit_types

unfoldable pub is_safe_unit : String → Bool
unfolding has_metachar all_unit_chars is_unit_type rpartition
is_safe_unit name = not (str_eq name "") && not (has_metachar name) && elim (rpartition b'.' name) [
  | none ↦ false
  | some (stem, type) ↦ not (str_eq stem "") && all_unit_chars stem && is_unit_type type
]
