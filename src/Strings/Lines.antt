-- ===== src/Strings/Lines.antt =====
-- bufio.Scanner over lines.
use k8s_pod_oom_oracle.Base.{
  Option, none, some, List, [], ◌∷◌, Str, leb, any, length, ◌==◌, if◌then◌else◌, split,
}

-- A last carriage return goes.
unfoldable pub drop_return : Str → Str
drop_return [] = []
drop_return (c ∷ []) = if c == 13 then [] else c ∷ []
drop_return (c ∷ d ∷ s) = c ∷ drop_return (d ∷ s)

-- What stands behind the last newline is a line only if it is not empty.
unfoldable pub drop_empty_last : List Str → List Str
drop_empty_last [] = []
drop_empty_last ([] ∷ []) = []
drop_empty_last (w ∷ []) = w ∷ []
drop_empty_last (w ∷ v ∷ ws) = w ∷ drop_empty_last (v ∷ ws)

unfoldable pub without_returns : List Str → List Str
unfolding drop_return
without_returns [] = []
without_returns (w ∷ ws) = drop_return w ∷ without_returns ws

-- The lines of a text, or `none` where one is too long for the scanner's buffer of 64 KiB.
unfoldable pub scan_lines : Str → Option (List Str)
unfolding split drop_empty_last without_returns
scan_lines content =
    let raw = drop_empty_last (split 10 content) in
    if any (λ w. leb 65536 (length w)) raw then none else some (without_returns raw)
