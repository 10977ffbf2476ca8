-- ===== src/Render/Text.antt =====
-- internal/render/text.go: the plain text of a report, section by section. Go's formats of float64 and
-- of time are functions of the model.
pub mod Total
mod Tests
use k8s_pod_oom_oracle.Base.{
  ℕ, zero, suc, ◌+◌, ◌-◌, ◌*◌, ◌/◌, ◌==◌, ◌&&◌, leb, ltb, ℤ, pos, negsuc, leb_ℤ, ltb_ℤ, pos_part,
  Bool, true, false, Option, none, some, List, [], ◌∷◌, ◌++◌, Str, codes, same, length, take,
  replicate, if◌then◌else◌, not,
}
use k8s_pod_oom_oracle.Float.{FloatOps}
use k8s_pod_oom_oracle.Clock.{Time, Duration, time_sub}
use k8s_pod_oom_oracle.Strings.Numbers.{decimal}
use k8s_pod_oom_oracle.Correlate.Identity.{QosClass, Identity}
use k8s_pod_oom_oracle.Detector.Event.{Source, Victim}
use k8s_pod_oom_oracle.Sampler.Sample.{Trend}
use k8s_pod_oom_oracle.Procfs.Tree.{itoa}
use k8s_pod_oom_oracle.Oom.Report.{Report, TrajectoryPoint, ProcessSnapshot, VictimMatch}
use k8s_pod_oom_oracle.Oom.Window.{window}
use k8s_pod_oom_oracle.Render.Rows.{trajectory_rows, max_trajectory_rows}
use k8s_pod_oom_oracle.Strings.ValidText.{rune_count}
use k8s_pod_oom_oracle.Render.Commands.{command_line, short_id}

abbrev pub bar_width : ℕ
bar_width = 18

abbrev pub max_processes : ℕ
max_processes = 10

abbrev newline : Str
newline = 10 ∷ []

-- The formats of package fmt and of package time that the text uses.
pub record TextFormats (R : Type 0) : Type 0 where
  -- %.nf
  pub fixed : ℕ → R → Str
  -- "2006-01-02 15:04:05 MST" in the location of the options
  pub date_time : Time → Str
  -- the time format of the options, in their location
  pub clock : Time → Str
  -- d.Round(time.Second), printed
  pub rounded : Duration → Str
  -- uint64(x)
  pub to_uint : R → ℕ

-- %9s and %-9s, of a width in runes.
pad_left : ℕ → Str → Str
pad_left width s = replicate (width - rune_count s) b' ' ++ s

unfoldable pub pad_right : ℕ → Str → Str
pad_right width s = s ++ replicate (width - rune_count s) b' '

repeated : ℕ → Str → Str
repeated zero s = []
repeated (suc n) s = s ++ repeated n s

-- strings.Repeat, which panics on a negative count.
repeat_text : ℤ → Str → Option Str
unfolding repeated
repeat_text (pos n) s = some (repeated n s)
repeat_text (negsuc n) s = none

both_parts : Option Str → Option Str → Option Str
both_parts (some a) (some b) = some (codes "[" ++ (a ++ (b ++ codes "]")))
both_parts _ _ = none

-- Eighteen less a number.
rest_of_bar : ℤ → ℤ
rest_of_bar (pos n) = if leb n bar_width then pos (bar_width - n) else negsuc (n - bar_width - 1)
rest_of_bar (negsuc n) = pos (bar_width + n + 1)

-- One round of the loop of `Bytes`: the divisor and the unit after `k` more divisions at most.
scaled : ℕ → ℕ → ℕ → ℕ → ℕ × ℕ
scaled zero size div exp = (div, exp)
scaled (suc k) size div exp =
    let further = scaled k (size / 1024) (div * 1024) (exp + 1) in
    if leb 1024 size then further else (div, exp)

unit_letter : ℕ → Str
unit_letter zero = codes "K"
unit_letter (suc zero) = codes "M"
unit_letter (suc (suc zero)) = codes "G"
unit_letter (suc (suc (suc zero))) = codes "T"
unit_letter _ = codes "P"

qos_text : QosClass → Str
qos_text QosClass.unset = []
qos_text QosClass.guaranteed = codes "Guaranteed"
qos_text QosClass.burstable = codes "Burstable"
qos_text QosClass.best_effort = codes "BestEffort"
qos_text QosClass.unknown = codes "Unknown"

source_text : Source → Str
source_text Source.ebpf = codes "ebpf"
source_text Source.poller = codes "poller"
source_text Source.fake = codes "fake"

-- The parts of a text that can panic, put together.
both : Option Str → Option Str → Option Str
both (some a) (some b) = some (a ++ b)
both _ _ = none

listed_as : ℕ → ProcessSnapshot → (ℕ → Str) → Str
listed_as i p bytes =
    codes "  "
    ++ (decimal i
        ++ (codes ". "
            ++ (command_line p.comm p.cmdline
                ++ (codes " (PID "
                    ++ (itoa p.pid ++ (codes ") - " ++ (bytes p.rss_bytes ++ newline)))))))

-- The rows of the process listing, from number `i` on.
pub process_rows : (ℕ → Str) → ℕ → List ProcessSnapshot → Str
unfolding listed_as
process_rows bytes i [] = []
process_rows bytes i (p ∷ ps) = listed_as i p bytes ++ process_rows bytes (suc i) ps

-- What the listing means, by what was read of memory.oom.group.
pub group_kill_note : Option Bool → Str
group_kill_note none =
    codes
      "  memory.oom.group could not be read, so whether these processes\n  outlived the kill was never established. Treat the list as a\n  snapshot, not as survivors.\n"
group_kill_note (some true) =
    codes
      "  memory.oom.group=1: the kernel killed every process in this\n  container, so the list below is a teardown snapshot rather than\n  survivors, and resident sizes are already collapsing.\n"
group_kill_note (some false) =
    codes
      "  memory.oom.group=0: the kernel killed only the process it\n  selected, so these were still running after it died.\n"

is_none_matched : VictimMatch → Bool
is_none_matched VictimMatch.none_matched = true
is_none_matched _ = false

unmatched_note : Bool → Str
unmatched_note false = []
unmatched_note true =
    codes
      "  The victim could not be matched against this listing, so it may\n  still appear below. Its host PID and container PID both failed to\n  match any entry.\n"

more_note : ℕ → Str
more_note zero = []
more_note (suc n) = codes "  ... and " ++ (decimal (suc n) ++ codes " more\n")

confidence : Bool → Str
confidence true =
    codes
      "  Confidence:      inferred, not traced.\n                   This process vanished between samples and held the\n                   most memory. Run with the eBPF detector for an exact\n                   victim.\n"
confidence false = codes "  Confidence:      traced in the kernel at the moment of the kill.\n"

-- A line that is there where a number is not zero.
if_positive : ℕ → Str → Str
if_positive zero line = []
if_positive (suc n) line = line

pod_line : Identity → Str
pod_line id =
    if id.resolved
    then codes "POD: " ++ (id.pod_name ++ (codes " (namespace: " ++ (id.namespace ++ codes ")\n")))
    else codes "POD: <unresolved> (uid: " ++ (id.scope.pod_uid ++ codes ")\n")

container_line : Identity → Str
container_line id =
    if same id.container_name []
    then codes "CONTAINER: <unresolved> (id: " ++ (short_id id.scope.container_id ++ codes ")\n")
    else if same id.image []
    then codes "CONTAINER: " ++ (id.container_name ++ newline)
    else codes "CONTAINER: "
      ++ (id.container_name ++ (codes " (image: " ++ (id.image ++ codes ")\n")))

qos_line : Str → Str
qos_line [] = []
qos_line (c ∷ s) = codes "QOS: " ++ ((c ∷ s) ++ newline)

-- `writeHeader`
pub write_header : Identity → Str
unfolding pod_line container_line qos_line qos_text
write_header id = pod_line id ++ (container_line id ++ qos_line (qos_text id.scope.qos))

module _ {R : Type 0} ⦃fl : FloatOps R⦄ (f : TextFormats R) where
  -- `Bytes`
  pub bytes_text : ℕ → Str
  unfolding scaled unit_letter
  bytes_text n =
      let (divisor, exp) = scaled 4 (n / 1024) 1024 0 in
      if ltb n 1024
      then decimal n ++ codes "B"
      else f.fixed 1 (fl.div (fl.of_uint n) (fl.of_uint divisor)) ++ (unit_letter exp ++ codes "iB")

  -- `limitLabel`
  pub limit_label : ℕ → Str
  unfolding bytes_text
  limit_label zero = codes "unlimited"
  limit_label (suc n) = bytes_text (suc n)

  clamped : R → R
  clamped ratio =
      let low = if fl.lt ratio fl.zero_float then fl.zero_float else ratio in
      if fl.lt fl.one_float low then fl.one_float else low

  -- `bar`, which panics where the number of filled cells is out of range. A cell is the UTF-8 of U+2588 or
  -- of U+2591.
  pub bar : R → Option Str
  unfolding clamped repeat_text rest_of_bar both_parts
  bar ratio =
      let filled = fl.to_duration (fl.mul (clamped ratio) (fl.of_uint bar_width)) in
      both_parts (repeat_text filled (226 ∷ 150 ∷ 136 ∷ []))
        (repeat_text (rest_of_bar filled) (226 ∷ 150 ∷ 145 ∷ []))

  trend_line : Trend R → Str
  trend_line t =
      if t.projected
      then codes "  Growth rate:  "
        ++ (bytes_text (f.to_uint t.bytes_per_second)
            ++ (codes "/s (fit R"
                ++ (194 ∷ 178 ∷ codes "="
                    ++ (f.fixed 2 t.r_squared
                        ++ (codes " over " ++ (f.rounded t.window ++ codes ")\n"))))))
      else []

  -- `writeDiagnosis`
  pub write_diagnosis : Report R → Str
  unfolding if_positive source_text trend_line
  write_diagnosis r =
      codes "\nDIAGNOSIS: OOMKilled ("
      ++ (f.date_time r.time
          ++ (codes ")\n"
              ++ (if_positive r.limit_bytes
                    (codes "  Limit:        " ++ (bytes_text r.limit_bytes ++ newline))
                  ++ (if_positive r.peak_bytes
                        (codes "  Peak usage:   " ++ (bytes_text r.peak_bytes ++ newline))
                      ++ (if_positive r.kill_count
                            (codes "  Kill count:   " ++ (decimal r.kill_count ++ newline))
                          ++ (codes "  Detected by:  "
                              ++ (source_text r.source ++ (newline ++ trend_line r.trend))))))))

  stall_note : R → Str
  stall_note pressure =
      if fl.lt fl.zero_float pressure
      then codes "  (stall " ++ (f.fixed 0 pressure ++ codes "%)")
      else []

  with_bar : TrajectoryPoint R → Option Str → Option Str
  unfolding stall_note pad_left pad_right
  with_bar p none = none
  with_bar p (some meter) = some (
      codes "  "
      ++ (f.clock p.time
          ++ (codes ": "
              ++ (pad_left 9 (bytes_text p.used_bytes)
                  ++ (codes " / "
                      ++ (pad_right 9 (limit_label p.limit_bytes)
                          ++ (codes " "
                              ++ (meter
                                  ++ (codes " "
                                      ++ (pad_left 3 (f.fixed 0 (fl.mul p.ratio (fl.of_uint 100)))
                                          ++ (codes "%"
                                              ++ (stall_note p.pressure_full ++ newline))))))))))))

  pub point_rows : List (TrajectoryPoint R) → Option Str
  unfolding with_bar both
  point_rows [] = some []
  point_rows (p ∷ ps) = both (with_bar p (bar p.ratio)) (point_rows ps)

  rows_text : Option (List (TrajectoryPoint R)) → Option Str
  unfolding point_rows
  rows_text none = none
  rows_text (some rows) = point_rows rows

  -- `writeTrajectory`
  pub write_trajectory : Report R → Option Str
  unfolding rows_text both
  write_trajectory r = elim r.trajectory [
    | [] ↦ some (codes "\nMEMORY TRAJECTORY: no samples buffered before the kill\n")
    | p ∷ ps ↦
        both (some (codes "\nMEMORY TRAJECTORY (last " ++ (f.rounded (window r) ++ codes "):\n")))
          (rows_text (trajectory_rows r.trajectory max_trajectory_rows))
  ]

  -- `writeVictim`
  pub write_victim : Victim → Str
  unfolding confidence if_positive
  write_victim v =
      if v.known
      then codes "\nVICTIM PROCESS:\n"
        ++ (codes "  PID:             "
            ++ (itoa v.pid
                ++ (codes " (in container: "
                    ++ (itoa v.ns_pid
                        ++ (codes ")\n"
                            ++ (codes "  Command:         "
                                ++ (command_line v.comm v.cmdline
                                    ++ (newline
                                        ++ (codes "  Exit code:       137 (OOM)\n"
                                            ++ (if_positive v.rss_bytes (
                                                  codes "  Memory at death: "
                                                  ++ (bytes_text v.rss_bytes ++ newline))
                                                ++ confidence v.inferred))))))))))
      else codes
          "\nVICTIM PROCESS:\n  Could not be identified.\n  The kernel reported a kill but no sampled process disappeared.\n"

  -- `writeProcesses`
  pub write_processes : Report R → Str
  unfolding group_kill_note unmatched_note is_none_matched more_note process_rows
  write_processes r = elim r.processes [
    | [] ↦ []
    | p ∷ ps ↦
        codes "\nPROCESSES IN CONTAINER AFTER THE KILL:\n"
        ++ (unmatched_note (r.victim.known && is_none_matched r.victim_match)
            ++ (group_kill_note r.group_kill
                ++ (process_rows bytes_text 1 (take max_processes r.processes)
                    ++ more_note (length r.processes - max_processes))))
  ]

  -- `Text`
  pub text : Report R → Option Str
  unfolding both
  text r =
      both (some (write_header r.identity ++ write_diagnosis r))
        (both (write_trajectory r) (some (write_victim r.victim ++ write_processes r)))
