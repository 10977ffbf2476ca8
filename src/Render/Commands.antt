-- ===== src/Render/Commands.antt =====
-- internal/render/text.go: `commandLine` and `shortID`, on whatever bytes a command holds.
pub mod Plain
pub mod Layout
mod Tests
use k8s_pod_oom_oracle.Base.{
  ℕ, ◌+◌, ◌-◌, ◌||◌, ◌&&◌, ◌==◌, leb, ltb, not, Bool, List, [], ◌∷◌, ◌++◌, Str, codes, same, select,
  length, take, if◌then◌else◌,
}
use k8s_pod_oom_oracle.Strings.Space.{join}
use k8s_pod_oom_oracle.Strings.Runes.{Rune, runes, text_of, is_unicode_space, is_unicode_control}

abbrev pub max_command_length : ℕ
max_command_length = 96

-- The sign of a cut, in UTF-8.
abbrev pub ellipsis : Str
ellipsis = 226 ∷ 128 ∷ 166 ∷ []

-- `truncate`
pub truncate : Str → Str
truncate s =
    if leb (length (runes s)) max_command_length
    then s
    else text_of (take (max_command_length - 1) (runes s)) ++ ellipsis

-- What `flattenWhitespace` takes for a gap between fields.
pub is_gap : ℕ → Bool
is_gap c = is_unicode_space c || is_unicode_control c

-- The bytes of the first rune of a field, before those of the rest.
pub onto_field : Str → List Str → List Str
onto_field bytes [] = bytes ∷ []
onto_field bytes (w ∷ ws) = (bytes ++ w) ∷ ws

-- The fields of strings.FieldsFunc, empty ones included. A field is a part of the text, so its bytes are
-- as they were.
pub rune_fields : List Rune → List Str
unfolding onto_field is_gap
rune_fields [] = [] ∷ []
rune_fields (r ∷ rs) =
    let rest = rune_fields rs in if is_gap r.code then [] ∷ rest else onto_field r.bytes rest

-- `flattenWhitespace`
pub flatten_whitespace : Str → Str
unfolding rune_fields
flatten_whitespace s = join (codes " ") (select (λ w. not (same w [])) (rune_fields (runes s)))

-- `commandLine`
pub command_line : Str → List Str → Str
unfolding truncate flatten_whitespace
command_line comm [] = truncate (flatten_whitespace comm)
command_line comm (a ∷ args) = truncate (flatten_whitespace (join (codes " ") (a ∷ args)))

-- `shortID`
pub short_id : Str → Str
short_id id = if leb (length id) 12 then id else take 12 id
