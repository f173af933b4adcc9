-- ===== src/Docker/Stats/Exact.antt =====
-- internal/adapters/out/runtime/docker/docker.go: the measurements are the sums and differences that
-- they stand for, as long as 64 bits hold them.
use gameserver_daemon.Common.{
  ℕ, ◌+◌, ◌-◌, ◌*◌, ◌^◌, ◌≤◌, ◌<◌, String, false, string_dec, ◌&&◌, ◌≡◌, refl, List, [], ◌∷◌, ◌==◌,
  ltb, if◌then◌else◌, arith, none,
}
use gameserver_daemon.Common.Strings.{to_lower}
use gameserver_daemon.Errors.{ok}
use gameserver_daemon.Ports.{WorkloadHealth}
use gameserver_daemon.Docker.Stats.{
  Interface, BlockEntry, Stats, sub_64, add_64, num_cpus, sum_interfaces, sum_blocks, measured,
  collect_stats,
}

-- The sums without a bound.
unfoldable pub total_rx : List Interface → ℕ
total_rx [] = 0
total_rx (i ∷ is) = i.rx_bytes + total_rx is

unfoldable pub total_tx : List Interface → ℕ
total_tx [] = 0
total_tx (i ∷ is) = i.tx_bytes + total_tx is

-- The bytes of the entries with this operation, whatever its case.
unfoldable pub total_of : String → List BlockEntry → ℕ
total_of op [] = 0
total_of op (e ∷ es) =
    let rest = total_of op es in if to_lower e.op == op then e.bytes + rest else rest

interfaces_exact :
    (rx tx : ℕ) (is : List Interface)
    → rx + total_rx is < 2 ^ 64
    → tx + total_tx is < 2 ^ 64
    → ((sum_interfaces rx tx is).0 ≡ rx + total_rx is)
      × ((sum_interfaces rx tx is).1 ≡ tx + total_tx is)
unfolding sum_interfaces total_rx total_tx
interfaces_exact rx tx [] h k = (omega arith, omega arith)
interfaces_exact rx tx (i ∷ is) h k =
    let (a, b) =
      interfaces_exact (add_64 rx i.rx_bytes) (add_64 tx i.tx_bytes) is (omega (arith, h))
        (omega (arith, k)) in
    (omega (arith, a, h), omega (arith, b, k))

-- One entry that is a read, a write, or neither.
reads_and_writes : (op : String) → op ≡ "read" → (op == "write") ≡ false
unfolding string_dec
reads_and_writes op e = rw e refl

blocks_exact :
    (reads writes : ℕ) (es : List BlockEntry)
    → reads + total_of "read" es < 2 ^ 64
    → writes + total_of "write" es < 2 ^ 64
    → ((sum_blocks reads writes es).0 ≡ reads + total_of "read" es)
      × ((sum_blocks reads writes es).1 ≡ writes + total_of "write" es)
unfolding sum_blocks total_of
blocks_exact reads writes [] h k = (omega arith, omega arith)
blocks_exact reads writes (e ∷ es) h k = ground (
  arith,
  reads_and_writes (to_lower e.op),
  blocks_exact (add_64 reads e.bytes) writes es,
  blocks_exact reads (add_64 writes e.bytes) es,
  blocks_exact reads writes es,
)

sub_64_exact : (a b : ℕ) → b ≤ a → a < 2 ^ 64 → sub_64 a b ≡ a - b
sub_64_exact a b h k = omega (arith, h, k)

-- The processor's share is that of the differences, where both have grown.
abbrev share : (ℕ → ℕ → ℕ → ℕ) → Stats → ℕ → ℕ → ℕ → ℕ
share millicores s cpu system before =
    if ltb 0 system && ltb 0 cpu then millicores cpu system (num_cpus s) else before

sub_64_fallen : (a b : ℕ) → a < b → b < 2 ^ 64 → sub_64 a b ≡ 2 ^ 64 - (b - a)
sub_64_fallen a b h k = omega (arith, h, k)

share_of_both :
    (millicores : ℕ → ℕ → ℕ → ℕ) (s : Stats) (cpu system before : ℕ)
    → 0 < cpu
    → 0 < system
    → share millicores s cpu system before ≡ millicores cpu system (num_cpus s)
share_of_both millicores s cpu system before h k = ground arith

-- The measurements of a container are what they stand for, as long as the counters do not fall and
-- their sums fit in 64 bits: the traffic is the sum over the interfaces, the disk's the sum over the
-- entries that are reads or writes in any case, the memory is the whole number of units of 2^20 bytes,
-- and the processor's share is calculated from the differences of the counters, or left alone where one
-- of the two has not grown. The other three fields of the health stay as they are.
pub collect_stats_exact :
    (millicores : ℕ → ℕ → ℕ → ℕ) (s : Stats) (h : WorkloadHealth)
    → s.pre_cpu_usage ≤ s.cpu_usage
    → s.cpu_usage < 2 ^ 64
    → s.pre_system_usage ≤ s.system_usage
    → s.system_usage < 2 ^ 64
    → total_rx s.networks < 2 ^ 64
    → total_tx s.networks < 2 ^ 64
    → total_of "read" s.blocks < 2 ^ 64
    → total_of "write" s.blocks < 2 ^ 64
    → let (r, m) = collect_stats millicores (ok (ok s)) h in
      (r ≡ none)
      × (m.network_rx ≡ total_rx s.networks)
      × (m.network_tx ≡ total_tx s.networks)
      × (m.disk_read ≡ total_of "read" s.blocks)
      × (m.disk_write ≡ total_of "write" s.blocks)
      × (m.memory_mb * 2 ^ 20 ≤ s.memory_usage)
      × (s.memory_usage < (m.memory_mb + 1) * 2 ^ 20)
      × (m.cpu_millicores
          ≡ share millicores s
              (s.cpu_usage - s.pre_cpu_usage)
              (s.system_usage - s.pre_system_usage)
              h.cpu_millicores)
      × (m.state ≡ h.state)
      × (m.workload_id ≡ h.workload_id)
      × (m.blueprint_id ≡ h.blueprint_id)
unfolding collect_stats measured
collect_stats_exact millicores s h cpu cpu_fits system system_fits rx tx reads writes =
    let (rx_sum, tx_sum) =
      interfaces_exact 0 0 s.networks (omega (arith, rx)) (omega (arith, tx)) in
    let (read_sum, write_sum) =
      blocks_exact 0 0 s.blocks (omega (arith, reads)) (omega (arith, writes)) in
    (
      refl,
      omega (arith, rx_sum),
      omega (arith, tx_sum),
      omega (arith, read_sum),
      omega (arith, write_sum),
      omega arith,
      omega arith,
      rw
          (
            sub_64_exact s.cpu_usage s.pre_cpu_usage cpu cpu_fits,
            sub_64_exact s.system_usage s.pre_system_usage system system_fits,
          )
          refl,
      refl,
      refl,
      refl,
    )

-- A counter that has fallen, as it does when a container restarts between two samples, is not taken
-- for one that has not grown.
pub fallen_counter :
    (millicores : ℕ → ℕ → ℕ → ℕ) (s : Stats) (h : WorkloadHealth)
    → s.cpu_usage < s.pre_cpu_usage
    → s.pre_cpu_usage < 2 ^ 64
    → s.pre_system_usage < s.system_usage
    → s.system_usage < 2 ^ 64
    → (collect_stats millicores (ok (ok s)) h).1.cpu_millicores
      ≡ millicores
          (2 ^ 64 - (s.pre_cpu_usage - s.cpu_usage))
          (s.system_usage - s.pre_system_usage)
          (num_cpus s)
unfolding collect_stats measured
fallen_counter millicores s h fallen fits grown system_fits =
    rw
      (
        sub_64_fallen s.cpu_usage s.pre_cpu_usage fallen fits,
        sub_64_exact s.system_usage s.pre_system_usage (omega (arith, grown)) system_fits,
      )
      (share_of_both millicores s (2 ^ 64 - (s.pre_cpu_usage - s.cpu_usage))
        (s.system_usage - s.pre_system_usage) h.cpu_millicores (omega (arith, fallen, fits))
        (omega (arith, grown)))
