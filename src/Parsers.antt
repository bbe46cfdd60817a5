-- ===== src/Parsers.antt =====
-- The eleven copies of parse_sched_policy: in the latency benchmarks, the ipc programs, the
-- Mosquitto programs and the two programs on priority inversion, one for each system. They differ
-- in their messages only.
mod Tests
use microkernel_benchmark.Prelude.{◌≡◌, ◌↔◌, String}
use microkernel_benchmark.Prelude.Program.{Program, finished}
use microkernel_benchmark.Policy.{Platform, linux, qnx, Policy, parse_policy}
use microkernel_benchmark.Policy.Agreement.{IsNamed, parse_policy-IsNamed}
use microkernel_benchmark.Latency.MaxLatency
use microkernel_benchmark.Latency.Jitter
use microkernel_benchmark.Latency.Deterministic
use microkernel_benchmark.Ipc.SharedQueue
use microkernel_benchmark.Ipc.TwoQueues
use microkernel_benchmark.Mosquitto.Burst
use microkernel_benchmark.Mosquitto.CpuLoad
use microkernel_benchmark.Mosquitto.QosSweep
use microkernel_benchmark.Fairness.Pipes
use microkernel_benchmark.Priority.Setup

pub data Benchmark : Type 0 where
  max_latency jitter deterministic shared_queue two_queues burst cpu_load qos_sweep pipes
        priority_inversion :
      Benchmark

abbrev pub parser : Benchmark → Platform → String → Program Policy
parser max_latency = MaxLatency.parse_sched_policy
parser jitter = Jitter.parse_sched_policy
parser deterministic = Deterministic.parse_sched_policy
parser shared_queue = SharedQueue.parse_sched_policy
parser two_queues = TwoQueues.parse_sched_policy
parser burst = Burst.parse_sched_policy
parser cpu_load = CpuLoad.parse_sched_policy
parser qos_sweep = QosSweep.parse_sched_policy
parser pipes = Pipes.parse_sched_policy
parser priority_inversion = Setup.parse_sched_policy

-- Every program's parser returns a policy exactly when the word names it on the platform: "fifo"
-- and "rr" everywhere, "sporadic" on QNX, no other word, and never SCHED_OTHER.
pub parser-IsNamed :
    (benchmark : Benchmark) (platform : Platform) (arg : String) (q : Policy)
    → ((parser benchmark platform arg).result ≡ finished q) ↔ IsNamed platform arg q
unfolding MaxLatency.parse_sched_policy Jitter.parse_sched_policy Deterministic.parse_sched_policy
    SharedQueue.parse_sched_policy TwoQueues.parse_sched_policy Burst.parse_sched_policy
    CpuLoad.parse_sched_policy QosSweep.parse_sched_policy Pipes.parse_sched_policy
    Setup.parse_sched_policy
parser-IsNamed max_latency platform = parse_policy-IsNamed platform _ _
parser-IsNamed jitter platform = parse_policy-IsNamed platform _ _
parser-IsNamed deterministic platform = parse_policy-IsNamed platform _ _
parser-IsNamed shared_queue platform = parse_policy-IsNamed platform _ _
parser-IsNamed two_queues platform = parse_policy-IsNamed platform _ _
parser-IsNamed burst platform = parse_policy-IsNamed platform _ _
parser-IsNamed cpu_load platform = parse_policy-IsNamed platform _ _
parser-IsNamed qos_sweep platform = parse_policy-IsNamed platform _ _
parser-IsNamed pipes platform = parse_policy-IsNamed platform _ _
parser-IsNamed priority_inversion linux = parse_policy-IsNamed linux _ _
parser-IsNamed priority_inversion qnx = parse_policy-IsNamed qnx "" _
