-- ===== src/Hygiene/Assess/Classified.antt =====
-- errander/agent/subgraphs/docker_hygiene.py: which objects an assessment makes candidates for removal.
use errander_ai.Common.{
  String, ◌≡◌, refl, not, ◌||◌, Bool, true, false, ◌&&◌, Option, none, some, List, [], ◌∷◌, arith,
  str_eq, if_holds, All, All-append_one, negsuc, ℤ, pos, lookup, strip, partition, after_prefix,
  splitlines,
}
use errander_ai.Hygiene.{
  ResourceClass, Classification, investigate, image_dangling, image_unused, container_stopped,
  volume_unreferenced, build_cache, Finding, truthy, is_candidate, is_nil,
}
use errander_ai.Hygiene.Rules.{
  Config, above, equals, build_finding, number, classify_stopped_container, classify_volume,
  classify_build_cache, volume_finding, container_finding, image_finding, build_cache_finding,
}
use errander_ai.Hygiene.Assess.{
  Reading, start, add_finding, read_field, read_header, read_object, read_class, read_line,
  read_lines, parse_kv_line, parse_assess_v2_output,
}

-- What the documentation of the rules asks of a candidate of each class.
abbrev pub is_removable : Config → Finding → Bool
is_removable cfg f = elim f.resource_class [
  | image_dangling ↦ true
  | image_unused ↦ above (pos 30) f.age_days
  | container_stopped ↦ equals (pos 0) f.exit_code && above (pos 168) f.stopped_age_hours
  | volume_unreferenced ↦
      cfg.volume_deletion_enabled && above cfg.volume_last_mount_days_threshold f.last_mount_days
  | build_cache ↦ cfg.build_cache_deletion_enabled && above (pos 0) f.reclaimable_bytes
]

abbrev is_investigate : Classification → Bool
is_investigate investigate = true
is_investigate _ = false

abbrev has_text : Option String → Bool
has_text none = false
has_text (some s) = not (str_eq s "")

abbrev has_name : Finding → Bool
has_name f = has_text f.object_id || has_text f.name

-- Killed or crashed.
abbrev pub is_suspect : Finding → Bool
is_suspect f = elim f.resource_class [
  | container_stopped ↦ equals (pos 137) f.exit_code || equals (pos 139) f.exit_code
  | _ ↦ false
]

-- A finding is a candidate exactly if the rule of its class says so, it is to be investigated exactly
-- if it is a container that was killed or crashed, and it has an id or a name.
abbrev pub IsClassified : Config → Finding → Type 0
IsClassified cfg f =
    (is_candidate f.classification ≡ is_removable cfg f)
    × (is_investigate f.classification ≡ is_suspect f)
    × (has_name f ≡ true)

stopped_candidate :
    (code age : Option ℤ)
    → (is_candidate (classify_stopped_container code age)
        ≡ (equals (pos 0) code && above (pos 168) age))
      × (is_investigate (classify_stopped_container code age)
          ≡ (equals (pos 137) code || equals (pos 139) code))
unfolding classify_stopped_container
stopped_candidate none age = (refl, refl)
stopped_candidate (some (pos n)) age = (ground arith, ground arith)
stopped_candidate (some (negsuc n)) age = (ground arith, ground arith)

volume_candidate :
    (threshold : ℤ) (enabled : Bool) (mounted : Option ℤ)
    → (is_candidate (classify_volume threshold enabled mounted)
        ≡ (enabled && above threshold mounted))
      × (is_investigate (classify_volume threshold enabled mounted) ≡ false)
unfolding classify_volume
volume_candidate threshold enabled mounted = (ground arith, ground arith)

cache_candidate :
    (enabled : Bool) (reclaimable : Option ℤ)
    → (is_candidate (classify_build_cache enabled reclaimable)
        ≡ (enabled && above (pos 0) reclaimable))
      × (is_investigate (classify_build_cache enabled reclaimable) ≡ false)
unfolding classify_build_cache
cache_candidate enabled reclaimable = (ground arith, ground arith)

module _ (int : String → Option ℤ) (cfg : Config) where
  abbrev Built : Option Finding → Type 0
  Built none = Unit
  Built (some f) = IsClassified cfg f

  Built-truthy :
      (make : Option String → Option Finding) (o : Option String)
      → Built (make none)
      → ((s : String) → str_eq s "" ≡ false → Built (make (some s)))
      → Built (make (truthy o))
  Built-truthy make none empty full = empty
  Built-truthy make (some s) empty full =
      if_holds (λ o. Built (make o)) (str_eq s "") (λ _. empty) (full s)

  cache_finding-Built : (n : Option ℤ) → Built (build_cache_finding cfg n)
  cache_finding-Built none = tt
  cache_finding-Built (some n) =
      let (c, i) = cache_candidate cfg.build_cache_deletion_enabled (some n) in
      if_holds Built (equals (pos 0) (some n)) (λ _. tt) (λ _. (c, i, refl))

  build_finding-Built :
      (c : ResourceClass) (kv : List (String × String)) → Built (build_finding int cfg c kv)
  unfolding build_finding
  build_finding-Built image_dangling kv =
      Built-truthy (image_finding int image_dangling kv) (lookup "id" kv) tt
        (λ id e. (refl, refl, rw e))
  build_finding-Built image_unused kv =
      Built-truthy (image_finding int image_unused kv) (lookup "id" kv) tt
        (λ id e. (ground arith, ground arith, rw e))
  build_finding-Built container_stopped kv =
      let (c, i) =
        stopped_candidate (number int "exit_code" kv) (number int "stopped_age_hours" kv) in
      Built-truthy (container_finding int kv) (lookup "id" kv) tt (λ id e. (c, i, rw e))
  build_finding-Built volume_unreferenced kv =
      let (c, i) =
        volume_candidate cfg.volume_last_mount_days_threshold cfg.volume_deletion_enabled
          (number int "last_mount_days" kv) in
      Built-truthy (volume_finding int cfg kv) (lookup "name" kv) tt (λ name e. (c, i, rw e))
  build_finding-Built build_cache kv = cache_finding-Built (number int "reclaimable_bytes" kv)

  abbrev AllClassified : Reading → Type 0
  AllClassified r = All (IsClassified cfg) r.findings

  add_finding-AllClassified :
      (f : Option Finding) (r : Reading)
      → Built f
      → AllClassified r
      → AllClassified (add_finding f r)
  add_finding-AllClassified none r b a = a
  add_finding-AllClassified (some f) r b a = All-append_one (IsClassified cfg) r.findings f a b

  read_object-AllClassified :
      (c : Option ResourceClass) (kv : List (String × String)) (r : Reading)
      → AllClassified r
      → AllClassified (read_object int cfg c kv r)
  unfolding read_object
  read_object-AllClassified none kv r a = a
  read_object-AllClassified (some c) kv r a =
      if_holds AllClassified (is_nil kv) (λ _. a)
        (λ _. add_finding-AllClassified (build_finding int cfg c kv) r (build_finding-Built c kv) a)

  module _ (lower : String → String) where
    read_field-AllClassified :
        (kv : String × String) (r : Reading)
        → AllClassified r
        → AllClassified (read_field lower kv r)
    read_field-AllClassified (key, value) r a =
        if_holds AllClassified (str_eq key "reachable") (λ _. a)
          (λ _. if_holds AllClassified (str_eq key "error") (λ _. a) (λ _. a))

    read_header-AllClassified :
        (kv : Option (String × String)) (r : Reading)
        → AllClassified r
        → AllClassified (read_header lower kv r)
    read_header-AllClassified none r a = a
    read_header-AllClassified (some (key, value)) r a =
        read_field-AllClassified (strip key, strip value) r a

    read_class-AllClassified :
        (value : Option String) (r other : Reading)
        → AllClassified r
        → AllClassified other
        → AllClassified (read_class value r other)
    read_class-AllClassified none r other a b = b
    read_class-AllClassified (some value) r other a b = a

    read_line-AllClassified :
        (line : String) (r : Reading)
        → AllClassified r
        → AllClassified (read_line int lower cfg line r)
    unfolding read_line
    read_line-AllClassified line r a =
        let read = read_object-AllClassified r.current_class (parse_kv_line line) r a in
        let other =
          read_class-AllClassified (after_prefix "class=" line) r
            (read_object int cfg r.current_class (parse_kv_line line) r) a read in
        if_holds AllClassified (str_eq line "") (λ _. a)
          (λ _.
            if_holds AllClassified (str_eq line "docker_hygiene_begin") (λ _. a)
              (λ _.
                if_holds AllClassified (str_eq line "docker_hygiene_end") (λ _. a)
                  (λ _.
                    if_holds AllClassified (not r.in_block)
                      (λ _. read_header-AllClassified (partition b'=' line) r a) (λ _. other))))

    read_lines-AllClassified :
        (lines : List String) (r : Reading)
        → AllClassified r
        → AllClassified (read_lines int lower cfg lines r)
    unfolding read_lines
    read_lines-AllClassified [] r a = a
    read_lines-AllClassified (line ∷ lines) r a =
        read_lines-AllClassified lines (read_line int lower cfg (strip line) r)
          (read_line-AllClassified (strip line) r a)

    -- Whatever the wrapper prints, each finding of the assessment has an id or a name, is a candidate
    -- for removal exactly if the rule of its class says so (a volume or the build cache only where their
    -- deletion is enabled), and is to be investigated exactly if it is a container with the exit code
    -- 137 or 139.
    pub parse_assess-IsClassified :
        (vm_id stdout : String)
        → All (IsClassified cfg) (parse_assess_v2_output int lower cfg vm_id stdout).findings
    unfolding parse_assess_v2_output
    parse_assess-IsClassified vm_id stdout = read_lines-AllClassified (splitlines stdout) start tt
