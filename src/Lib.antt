-- ===== src/Lib.antt =====
-- A verification library for the benchmark programs, which compare a microkernel (QNX) with a
-- monolithic kernel (Linux). Each program is a process of its own: they share no code but repeat each
-- other's helpers, and they interact with the kernel, with a broker and with commands. What the
-- kernel answers is therefore an argument of the model: a Boolean for a call that may be refused, a
-- function from the number of a round to what that round reads, or a free choice of a step.
--
-- The parts, with the sources under src/:
--   Prelude, CString   natural numbers, integers, programs that write diagnostics and may fail,
--                      relations whose steps lower a rank (Descent); the C string functions that
--                      the programs call, with numbers in decimal
--   Timespec, Policy   struct timespec and its arithmetic; scheduling policies, their parameters, and
--                      the answers of the kernel (Host). Both are repeated in most programs.
--   Parsers            the eleven copies of parse_sched_policy side by side
--   Latency            scheduling/latency: MaxLatency (max_latency_scheduling.c), Jitter
--                      (measure_jitter.c), Deterministic (deterministic_latency.c); Worst is what
--                      they are held to, Results and Reports connect the two
--   Ipc                ipc: SharedQueue (ipc_latency.c) and TwoQueues (ipc_mq_latency.c), over the
--                      interface MessageQueue, which lists implement; Teardown is the end of each
--   Mosquitto          mosquitto: Exchange is the shared state of the two threads around on_message,
--                      Session the runs that follow one another over it, Summary the figures of a
--                      run, Processes the broker and the workers; Burst (burst_pubsub_test.c),
--                      CpuLoad (cpu_load_pubsub_test.c) and QosSweep (qos_sweep_test.c) put them
--                      together
--   Fairness           scheduling/process and ipc: Processes (process_fairness.c) and Pipes
--                      (ipc_pipe_latency.c), which share the loop of the children (Counter) and the
--                      figures (Extremes); Runs has the parent, its children and the pipes as a
--                      step relation; CString.Decimal is the text in the pipes
--   SleepWake          scheduling/process/sleep_wake_process.c (Processes) and
--                      scheduling/threads/sleep_wake_thread.c (Threads), with the loops that add up
--                      delays; Processes.Child is a sleeping process with each reading of its clock,
--                      OnTime what follows for the report; Lateness is what they are held to, CString.Scan the text in the pipes
--   Threads            scheduling/threads: PingPong (thread_ctx_switch.c) and Counting
--                      (thread_fairness.c)
--   ProcessSwitch      scheduling/process/process_ctx_switch.c, with what a process sees of the end of
--                      the other
--   Rpc                the exchange of calls and answers that the ping-pong programs of Ipc, Threads
--                      and ProcessSwitch implement, with the views under which they do
--   Priority           scheduling/priority: Linux (linux_priority_inversion.c) and Qnx
--                      (qnx_priority_inversion.c), with their set-up (Setup) and what a scheduler by
--                      priority makes of them (Dispatch)
--   Files              file_systems: Meta (file_meta.c), over the interface FileSystem, and ReadWrite
--                      (read.c)
--   Memory             memory: Malloc (malloc.c), Throughput (allocator_throughput.c), Fragment
--                      (fragment.c), Leak (memleak.c)
--   Network            network_and_security/network_and_security.c: Ports (the four port scanners),
--                      Ciphers (the cipher summary, the password attempts, the line of /etc/shadow),
--                      System (what is asked of the system, and the small checks), Throughput (the
--                      runs of curl) and Main
--
-- How a program is read. A main is a Program: the diagnostics in order, and a result or a failure,
-- where exit(EXIT_FAILURE) and a return of 1 are both failures. A loop with a known number of rounds
-- recurses on the rounds to go, so no fuel is needed; the loops that run until a clock says that the
-- time is over are on fuel, one unit for each round, and it is shown how much is enough. Threads and
-- processes are step relations: one constructor for each operation on shared state, with free
-- readings of the clock, and runs are the relation's closure; a wait on a condition variable may wake
-- up without a signal. `__QNX__` is an argument (Platform), so that both builds are covered.
-- The scheduler is free, and every interleaving is a run, but in Priority.Dispatch, where a run is one
-- that fixed priorities allow on one processor.
--
-- Numbers. Clock readings, counters and array indices are natural numbers, differences of times are
-- integers. Where the source computes in uint64_t (measure_jitter.c) the wrap-around is written out;
-- the signed arithmetic on times is taken without a bound, since 2^63 nanoseconds are 292 years. An
-- undefined free is the value none.
--
-- Not modelled: the printing but for the lines that carry results, floating-point averages (a
-- sum and its divisor, or whole nanoseconds, stand for them). The shell script starts machines, and
-- the Mosquitto library and broker are binaries of another project.
pub mod Prelude
pub mod Timespec
pub mod Policy
pub mod Priority
pub mod Latency
pub mod Ipc
pub mod Mosquitto
pub mod Threads
pub mod Memory
pub mod CString
pub mod Network
pub mod Files
pub mod ProcessSwitch
pub mod Rpc
pub mod SleepWake
pub mod Fairness
pub mod Parsers
