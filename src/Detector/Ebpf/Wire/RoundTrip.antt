-- ===== src/Detector/Ebpf/Wire/RoundTrip.antt =====
-- The kernel's layout of struct oom_event, and its decoding.
use k8s_pod_oom_oracle.Base.{
  ℕ, zero, suc, ◌+◌, ◌-◌, ◌/◌, ◌%◌, ◌^◌, ◌<◌, ◌≤◌, ◌≡◌, refl, ap, arith, ℤ, pos, negsuc, some, [],
  ◌∷◌, ◌++◌, Str, length, drop, length-append, take_of_length-le, neg_part, pos_part,
}
use k8s_pod_oom_oracle.Detector.Ebpf.Wire.{
  event_size, RawEvent, little_endian, number_at, signed_of, read_fields, decode_event,
}

unfoldable pub bytes : ℕ → ℕ → Str
bytes zero n = []
bytes (suc w) n = n % 256 ∷ bytes w (n / 256)

-- The bits of a number in two's complement.
unfoldable pub bits_of : ℕ → ℤ → ℕ
bits_of w (pos n) = n
bits_of w (negsuc n) = 2 ^ w - 1 - n

length-bytes : (w n : ℕ) → length (bytes w n) ≡ w
unfolding bytes
length-bytes zero n = refl
length-bytes (suc w) n = ap suc (length-bytes w (n / 256))

-- A number that is read off its bytes, whatever follows.
number_at-bytes : (w n : ℕ) (s : Str) → n < 256 ^ w → number_at w (bytes w n ++ s) ≡ n
unfolding bytes little_endian
number_at-bytes zero n s h = omega arith
number_at-bytes (suc w) n s h = rw (number_at-bytes w (n / 256) s (omega arith)) (omega arith)

drop-bytes : (w n : ℕ) (s : Str) → drop w (bytes w n ++ s) ≡ s
unfolding bytes
drop-bytes zero n s = refl
drop-bytes (suc w) n s = drop-bytes w (n / 256) s

-- A number within `w` bits in two's complement.
unfoldable pub FitsSigned : ℕ → ℤ → Type 0
FitsSigned w z = (pos_part z < 2 ^ (w - 1)) × (neg_part z ≤ 2 ^ (w - 1))

signed_of-bits_of-64 : (z : ℤ) → FitsSigned 64 z → signed_of 64 (bits_of 64 z) ≡ z
unfolding signed_of bits_of FitsSigned
signed_of-bits_of-64 (pos n) (h, k) = ground arith
signed_of-bits_of-64 (negsuc n) (h, k) = ground arith

signed_of-bits_of-32 : (z : ℤ) → FitsSigned 32 z → signed_of 32 (bits_of 32 z) ≡ z
unfolding signed_of bits_of FitsSigned
signed_of-bits_of-32 (pos n) (h, k) = ground arith
signed_of-bits_of-32 (negsuc n) (h, k) = ground arith

bits_of-bound-64 : (z : ℤ) → FitsSigned 64 z → bits_of 64 z < 256 ^ 8
unfolding bits_of FitsSigned
bits_of-bound-64 (pos n) (h, k) = omega arith
bits_of-bound-64 (negsuc n) (h, k) = omega arith

bits_of-bound-32 : (z : ℤ) → FitsSigned 32 z → bits_of 32 z < 256 ^ 4
unfolding bits_of FitsSigned
bits_of-bound-32 (pos n) (h, k) = omega arith
bits_of-bound-32 (negsuc n) (h, k) = omega arith

first : (w n : ℕ) → n < 256 ^ w → (s : Str) → number_at w (bytes w n ++ s) ≡ n
first w n h s = number_at-bytes w n s h

-- The fields within their widths.
abbrev pub IsWire : RawEvent → Type 0
IsWire r =
    (r.timestamp_ns < 2 ^ 64)
    × (r.memcg_id < 2 ^ 64)
    × (r.task_cgroup_id < 2 ^ 64)
    × (r.anon_rss_pages < 2 ^ 64)
    × (r.file_rss_pages < 2 ^ 64)
    × (r.shmem_rss_pages < 2 ^ 64)
    × (r.total_vm_pages < 2 ^ 64)
    × (r.limit_pages < 2 ^ 64)
    × FitsSigned 64 r.badness_points
    × (r.pid < 2 ^ 32)
    × (r.tid < 2 ^ 32)
    × (r.ppid < 2 ^ 32)
    × (r.ns_pid < 2 ^ 32)
    × FitsSigned 32 r.oom_score_adj
    × (r.memcg_oom < 2 ^ 8)
    × (length r.comm ≡ 16)

-- The kernel's bytes of an event, with three bytes of padding of any value.
unfoldable pub encode : RawEvent → ℕ → Str
encode r padding =
    bytes 8 r.timestamp_ns
    ++ (bytes 8 r.memcg_id
        ++ (bytes 8 r.task_cgroup_id
            ++ (bytes 8 r.anon_rss_pages
                ++ (bytes 8 r.file_rss_pages
                    ++ (bytes 8 r.shmem_rss_pages
                        ++ (bytes 8 r.total_vm_pages
                            ++ (bytes 8 r.limit_pages
                                ++ (bytes 8 (bits_of 64 r.badness_points)
                                    ++ (bytes 4 r.pid
                                        ++ (bytes 4 r.tid
                                            ++ (bytes 4 r.ppid
                                                ++ (bytes 4 r.ns_pid
                                                    ++ (bytes 4 (bits_of 32 r.oom_score_adj)
                                                        ++ (bytes 1 r.memcg_oom
                                                            ++ (bytes 3 padding
                                                            ++ r.comm)))))))))))))))

length-bytes-append : (w n : ℕ) (s : Str) → length (bytes w n ++ s) ≡ w + length s
length-bytes-append w n s = rw (length-append (bytes w n) s, length-bytes w n) refl

length-encode :
    (r : RawEvent) (padding : ℕ) → length r.comm ≡ 16 → length (encode r padding) ≡ event_size
unfolding encode
length-encode r padding h = simp (length-bytes-append, h)

read_fields-encode : (r : RawEvent) (padding : ℕ) → IsWire r → read_fields (encode r padding) ≡ r
unfolding encode read_fields
read_fields-encode r padding
      (h₁, h₂, h₃, h₄, h₅, h₆, h₇, h₈, h₉, h₁₀, h₁₁, h₁₂, h₁₃, h₁₄, h₁₅, h₁₆) =
    simp (
      drop-bytes,
      first 8 _ h₁,
      first 8 _ h₂,
      first 8 _ h₃,
      first 8 _ h₄,
      first 8 _ h₅,
      first 8 _ h₆,
      first 8 _ h₇,
      first 8 _ h₈,
      first 8 _ (bits_of-bound-64 r.badness_points h₉),
      first 4 _ h₁₀,
      first 4 _ h₁₁,
      first 4 _ h₁₂,
      first 4 _ h₁₃,
      first 4 _ (bits_of-bound-32 r.oom_score_adj h₁₄),
      first 1 _ h₁₅,
      signed_of-bits_of-64 r.badness_points h₉,
      signed_of-bits_of-32 r.oom_score_adj h₁₄,
      take_of_length-le 16 r.comm (omega arith),
    )

-- The decoder reads back every event that the kernel writes, whatever the padding: all 112 bytes are
-- at their offsets and no field loses a bit, where each field is within its width.
pub decode_event-encode :
    (r : RawEvent) (padding : ℕ) → IsWire r → decode_event (encode r padding) ≡ some r
unfolding decode_event
decode_event-encode r padding h =
    rw (length-encode r padding h.15, read_fields-encode r padding h) refl
