-- ===== src/Render/Commands/Tests.antt =====
-- An inline script, and bytes that are no UTF-8.
use k8s_pod_oom_oracle.Base.{
  ◌≡◌, ◌≤◌, refl, [], ◌∷◌, ◌++◌, List, Str, codes, same, length, replicate,
}
use k8s_pod_oom_oracle.Strings.Space.{join}
use k8s_pod_oom_oracle.Strings.Runes.{
  invalid, of_two, of_three, of_four, first_rune, runes_behind, runes, written, text_of,
}
use k8s_pod_oom_oracle.Render.Commands.{
  truncate, is_gap, onto_field, rune_fields, flatten_whitespace, command_line,
}
use k8s_pod_oom_oracle.Strings.Runes.Decoding.{AllRunes}
use k8s_pod_oom_oracle.Render.Commands.Plain.{IsPlain}
use k8s_pod_oom_oracle.Render.Commands.Layout.{HasNone, is_control, command_line-HasNone}

-- The last gap is U+2028.
abbrev script : List Str
script = codes "sh" ∷ codes "-c" ∷ (codes "a\n\tb" ++ 226 ∷ 128 ∷ 168 ∷ codes "c ") ∷ []

flattened : command_line (codes "sh") script ≡ codes "sh -c a b c"
unfolding command_line truncate flatten_whitespace rune_fields onto_field is_gap runes runes_behind
    first_rune of_two of_three of_four join same
flattened = refl

stray : length (runes (replicate 200 128)) ≡ 200
unfolding runes runes_behind first_rune invalid
stray = refl

cut_down : length (runes (truncate (replicate 200 128))) ≡ 96
unfolding truncate runes runes_behind first_rune invalid of_three text_of written
cut_down = refl

command_line-HasNone_example :
    HasNone is_control (command_line (codes "sh") script)
    × AllRunes IsPlain (runes (command_line (codes "sh") script))
    × (length (runes (command_line (codes "sh") script)) ≤ 96)
command_line-HasNone_example = command_line-HasNone (codes "sh") script
