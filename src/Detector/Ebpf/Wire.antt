-- ===== src/Detector/Ebpf/Wire.antt =====
-- internal/detector/ebpf.go: `rawEvent`, `decodeEvent` and what is read off one event.
pub mod RoundTrip
use k8s_pod_oom_oracle.Base.{
  ℕ, zero, suc, ◌+◌, ◌-◌, ◌*◌, ◌/◌, ◌%◌, ◌^◌, ◌==◌, ltb, leb_ℤ, ℤ, pos, negsuc, Bool, Option, none,
  some, List, [], ◌∷◌, ◌++◌, Str, length, take, drop, if◌then◌else◌, pos_part, false, true,
}
use k8s_pod_oom_oracle.Clock.{Time, time_add}
use k8s_pod_oom_oracle.Detector.Event.{Source, Victim, no_victim, KillEvent}

-- The wire size of struct oom_event.
abbrev pub event_size : ℕ
event_size = 112

pub record RawEvent : Type 0 where
  pub timestamp_ns : ℕ
  pub memcg_id : ℕ
  pub task_cgroup_id : ℕ
  pub anon_rss_pages : ℕ
  pub file_rss_pages : ℕ
  pub shmem_rss_pages : ℕ
  pub total_vm_pages : ℕ
  pub limit_pages : ℕ
  pub badness_points : ℤ
  pub pid : ℕ
  pub tid : ℕ
  pub ppid : ℕ
  pub ns_pid : ℕ
  pub oom_score_adj : ℤ
  pub memcg_oom : ℕ
  pub comm : Str

-- binary.LittleEndian
unfoldable pub little_endian : Str → ℕ
little_endian [] = 0
little_endian (c ∷ s) = c + 256 * little_endian s

-- A number of `w` bits in two's complement.
unfoldable pub signed_of : ℕ → ℕ → ℤ
signed_of w n = if ltb n (2 ^ (w - 1)) then pos n else negsuc (2 ^ w - 1 - n)

abbrev pub number_at : ℕ → Str → ℕ
number_at width s = little_endian (take width s)

-- binary.Read of the fields, one behind the other: nine numbers of eight bytes, five of four, one of
-- one byte, three bytes of padding and the text.
unfoldable pub read_fields : Str → RawEvent
read_fields s₁ =
    let s₂ = drop 8 s₁ in
    let s₃ = drop 8 s₂ in
    let s₄ = drop 8 s₃ in
    let s₅ = drop 8 s₄ in
    let s₆ = drop 8 s₅ in
    let s₇ = drop 8 s₆ in
    let s₈ = drop 8 s₇ in
    let s₉ = drop 8 s₈ in
    let s₁₀ = drop 8 s₉ in
    let s₁₁ = drop 4 s₁₀ in
    let s₁₂ = drop 4 s₁₁ in
    let s₁₃ = drop 4 s₁₂ in
    let s₁₄ = drop 4 s₁₃ in
    let s₁₅ = drop 4 s₁₄ in
    let s₁₆ = drop 3 (drop 1 s₁₅) in
    record {
      timestamp_ns = number_at 8 s₁;
      memcg_id = number_at 8 s₂;
      task_cgroup_id = number_at 8 s₃;
      anon_rss_pages = number_at 8 s₄;
      file_rss_pages = number_at 8 s₅;
      shmem_rss_pages = number_at 8 s₆;
      total_vm_pages = number_at 8 s₇;
      limit_pages = number_at 8 s₈;
      badness_points = signed_of 64 (number_at 8 s₉);
      pid = number_at 4 s₁₀;
      tid = number_at 4 s₁₁;
      ppid = number_at 4 s₁₂;
      ns_pid = number_at 4 s₁₃;
      oom_score_adj = signed_of 32 (number_at 4 s₁₄);
      memcg_oom = number_at 1 s₁₅;
      comm = take 16 s₁₆;
    }

-- `decodeEvent`
pub decode_event : Str → Option RawEvent
unfolding read_fields
decode_event sample = if length sample == event_size then some (read_fields sample) else none

-- The text before the first NUL, or all of it.
unfoldable pub until_nul : Str → Str
until_nul [] = []
until_nul (c ∷ s) = if c == 0 then [] else c ∷ until_nul s

-- `comm`
pub comm_text : RawEvent → Str
unfolding until_nul
comm_text r = until_nul r.comm

-- `rssBytes`: the sum and the product wrap around at 64 bits.
pub rss_bytes_of : ℤ → RawEvent → ℕ
rss_bytes_of page_size r =
    if leb_ℤ page_size (pos 0)
    then 0
    else (r.anon_rss_pages + r.file_rss_pages + r.shmem_rss_pages)
      % 2 ^ 64
      * pos_part page_size
      % 2 ^ 64

-- `killEvent`: the timestamp is taken as an int64.
unfoldable pub kill_event : Str → ℤ → Time → RawEvent → KillEvent
unfolding comm_text rss_bytes_of
kill_event path page_size boot_time r = record {
  time = time_add boot_time (signed_of 64 r.timestamp_ns);
  cgroup_path = path;
  victim = record no_victim {
    pid = pos r.pid;
    ns_pid = pos r.ns_pid;
    comm = comm_text r;
    rss_bytes = rss_bytes_of page_size r;
    inferred = false;
    known = true;
  };
  kill_count = 0;
  group_kill = none;
  source = Source.ebpf;
}
