-- ===== src/Docker/Stats.antt =====
-- internal/adapters/out/runtime/docker/docker.go: the measurements of a running container.
pub mod Exact
use gameserver_daemon.Common.{
  ℕ, ◌+◌, ◌-◌, ◌*◌, ◌/◌, ◌%◌, ◌^◌, String, Bool, ◌&&◌, Option, none, some, List, [], ◌∷◌, ◌==◌, eqb,
  ltb, if◌then◌else◌,
}
use gameserver_daemon.Common.Strings.{to_lower}
use gameserver_daemon.Errors.{GoError, wrapped, Result, ok, err}
use gameserver_daemon.Ports.{WorkloadHealth}

-- The counters of one network interface, and one entry of the block device's.
pub record Interface : Type 0 where
  pub rx_bytes : ℕ
  pub tx_bytes : ℕ

pub record BlockEntry : Type 0 where
  pub op : String
  pub bytes : ℕ

-- `container.StatsResponse`, by the parts that are read. The counters are of 64 bits.
pub record Stats : Type 0 where
  pub cpu_usage : ℕ
  pub pre_cpu_usage : ℕ
  pub system_usage : ℕ
  pub pre_system_usage : ℕ
  pub online_cpus : ℕ
  pub percpu_usage : List ℕ
  pub memory_usage : ℕ
  pub networks : List Interface
  pub blocks : List BlockEntry

-- `a - b` and `a + b` on uint64.
abbrev pub sub_64 : ℕ → ℕ → ℕ
sub_64 a b = (a + (2 ^ 64 - b)) % 2 ^ 64

abbrev pub add_64 : ℕ → ℕ → ℕ
add_64 a b = (a + b) % 2 ^ 64

abbrev pub length_of : List ℕ → ℕ
length_of [] = 0
length_of (x ∷ xs) = length_of xs + 1

-- `numCPUs`
unfoldable pub num_cpus : Stats → ℕ
num_cpus s =
    if eqb s.online_cpus 0
    then if eqb (length_of s.percpu_usage) 0 then 1 else length_of s.percpu_usage
    else s.online_cpus

-- The loop over the interfaces, from the sums so far.
unfoldable pub sum_interfaces : ℕ → ℕ → List Interface → ℕ × ℕ
sum_interfaces rx tx [] = (rx, tx)
sum_interfaces rx tx (i ∷ is) = sum_interfaces (add_64 rx i.rx_bytes) (add_64 tx i.tx_bytes) is

-- The loop over the entries of the block device.
unfoldable pub sum_blocks : ℕ → ℕ → List BlockEntry → ℕ × ℕ
unfolding to_lower
sum_blocks reads writes [] = (reads, writes)
sum_blocks reads writes (e ∷ es) =
    if to_lower e.op == "read"
    then sum_blocks (add_64 reads e.bytes) writes es
    else if to_lower e.op == "write"
    then sum_blocks reads (add_64 writes e.bytes) es
    else sum_blocks reads writes es

-- The measurements that `collectStats` fills in. `millicores` is its calculation with float64 numbers,
-- of the processor's time, the system's time and the number of processors.
unfoldable pub measured : (ℕ → ℕ → ℕ → ℕ) → Stats → WorkloadHealth → WorkloadHealth
unfolding num_cpus sum_interfaces sum_blocks
measured millicores s h =
    let cpu = sub_64 s.cpu_usage s.pre_cpu_usage in
    let system = sub_64 s.system_usage s.pre_system_usage in
    let (rx, tx) = sum_interfaces 0 0 s.networks in
    let (reads, writes) = sum_blocks 0 0 s.blocks in
    record h {
      cpu_millicores =
          if ltb 0 system && ltb 0 cpu
          then millicores cpu system (num_cpus s)
          else h.cpu_millicores;
      memory_mb = s.memory_usage / (1024 * 1024);
      network_rx = rx;
      network_tx = tx;
      disk_read = reads;
      disk_write = writes;
    }

-- `collectStats`, given what `ContainerStats` and decoding its answer come to.
unfoldable pub collect_stats :
    (ℕ → ℕ → ℕ → ℕ) → Result (Result Stats) → WorkloadHealth → Option GoError × WorkloadHealth
unfolding measured
collect_stats millicores (err e) h = (some (wrapped "container stats: " e ""), h)
collect_stats millicores (ok (err e)) h = (some (wrapped "decode stats: " e ""), h)
collect_stats millicores (ok (ok s)) h = (none, measured millicores s h)

-- What `Status` makes of it: an error leaves the measurements as they are.
abbrev pub collected :
    {C : Type 0}
    → (ℕ → ℕ → ℕ → ℕ)
    → (String → C → Result (Result Stats))
    → String
    → C
    → WorkloadHealth
    → WorkloadHealth
collected millicores stats id c h = (collect_stats millicores (stats id c) h).1
