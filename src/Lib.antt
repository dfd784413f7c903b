-- ===== src/Lib.antt =====
-- The exercises of an operating systems course that end in a network of miners. Three programs do
-- real work: the network of miners with its monitor (Proyecto), the mining rush of one process
-- with threads (P1/Ejercicio13), and a miner with checker and monitor over a message queue
-- (P3/Codificacion). A fourth is a voting system (P2/voting.c). All miners search a candidate
-- whose hash is the target; the solution is the next target.
--
-- In Proyecto each miner is a process. The miners share a System in a shared memory under one
-- semaphore, tell one another by signals that a solution is published (SIGUSR2) and that a round
-- begins (SIGUSR1), and send each block through a pipe to their own register and through a message
-- queue to the checker, which passes it on to the monitor over a ring in another shared memory.
--
--   Common and its children: the library names, lists read and written by index, the ℤ over native
--     numbers, integers of 8 and 16 bits.
--   Pow: `pow_hash` (Proyecto/srclib/pow.c, and the same text in P1/Ejercicio13/pow.c and
--     P3/Codificacion/pow.c), over the integers with the remainder of C. Pow/Solve has the
--     inverse.
--   Args: `check_args` (Proyecto/srclib/miner.c) and the checks of P1/Ejercicio13/mrush.c.
--   Miners: `find_miner_index` and `delete_miner` (Proyecto/srclib/miner.c).
--   Mining: the threads `work` of one round of Proyecto/launch/miner_launch.c. `turn` is a step of
--     one thread, `Reach` what any schedule reaches, `created` the state after all are created.
--   Network: the protected sections of `main` of Proyecto/launch/miner_launch.c as functions on
--     `System` - `register_miner`, `start_first_round`, `join_round`, `publish`, `vote`, `tally`,
--     `new_round`, `leave` - and the wait for the votes. `run_round` composes them the way one
--     round calls them. Network/Processes has the processes as a step relation: any number of
--     miners, each with the place where it stands in `main`, with the naps and the test of the
--     loop that waits for the votes, its flags and its variables, in every interleaving;
--     `send_queue` is taken to return, and Monitor/Service has its queue;
--     Network/Processes/Sections and OneWinner read an interleaving back as the calls it makes,
--     and Network/Processes/Boot has the first miner. Network/Mutex has `sem_wait` with the
--     signals that interrupt it, and the wrapper that is never called.
--   Setup: `create_system`, the entry of a miner and the first calls of `comprobador`
--     (Proyecto/launch/monitor_launch.c): what an exit leaves behind, and which miner begins the
--     first round (Setup/Miner).
--   Launch: `signal_handler` and `send_queue` of Proyecto/launch/miner_launch.c.
--   Buffer: the ring of `comprobador` and `monitor`, with a program counter for each process, the
--     three semaphores, and ghost lists of what was written and read. It is generic in the slots,
--     their number and the range of the counters: 10 slots and 256 in Proyecto, 6 slots in
--     P3/Codificacion.
--   Report and Register: what `_register` writes (Proyecto/srclib/miner.c).
--   Monitor: what `monitor` prints, and the cleanup of `comprobador`
--     (Proyecto/launch/monitor_launch.c). Monitor/Shutdown has both loops with SIGINT at every
--     moment; until a signal comes they are followed by a state of Buffer. Monitor/Program has
--     `main` around them, with the names that both processes create and unlink.
--   Pipeline: the blocks that the winners of rounds in a row send, through the ring to the
--     reports; it composes Network, Buffer, Monitor and Register. Pipeline/Histories has the
--     interleavings of the processes that are made of such rounds. Monitor/Service has the ends of
--     `comprobador` as the winners see them: `monitor_up` and the queue of MAX_MSG blocks.
--   Rush: the miner, the monitor and mrush.c of P1/Ejercicio13. Rush/Main has the descriptors that
--     each process holds, and Rush/Agree compares its threads with those of Mining. Rush/Protocol
--     has the miner and the monitor as two processes over their pipes, in any order, and the lines
--     of `wait4miner`.
--   Codificacion: the miner, the checker and the monitor of P3/Codificacion: the blocks as lists,
--     the checker with any number of monitors as a step relation (Codificacion/Sharing), and the
--     programs around their loops (Codificacion/Start).
--   Voting: the handler, the votes, the count and the election of a candidate of P2/voting.c as a
--     step relation, with its semaphore `sem_en`, as far as no call in a section under it fails;
--     Voting/Start has the start - the checks, `main` and what it leaves when a call fails - with
--     the error paths under that semaphore. Voting/Signals has the same processes in finer steps,
--     with `sig_recieved` of each child, the waits that a signal ends and the handler of the
--     parent; Voting/Signals/Coarse reads it back as steps of Voting.
--   Course: four examples of the course: the counter of P3/file_mmap.c, the loops over short
--     transfers of P1/file_descriptors.c and P1/pipe_example.c, the descriptors of the former, and
--     the two processes of P2/sem_create.c.
--
-- Signals are lists of the pids that `kill` is called for, in order. A section under a semaphore
-- is one step, since no two processes are in it at a time unless a signal interrupts its
-- `sem_wait`, which Network/Mutex has; what the code reads outside of a section is a step or an
-- argument of its own. Whether a system call succeeds is an argument, as is what `rand` or
-- `malloc` leaves.
--
-- Bounds and fuel. Integers of 8 and 16 bits wrap: `num_miners` and the ring's counters are
-- `uint8_t`, ids and coins `int16_t`. The `long`s of the miners are natural numbers, since every
-- target and solution is below POW_LIMIT; the hash itself is over the integers. The loop that
-- waits for the votes runs on fuel, and six rounds are enough since its counter ends it at five;
-- the loops of the searches run on the number of candidates that are left, which their bounds
-- give. Loops that only signals end take the sequence of what they meet as an argument.
--
-- Not modelled: what P2/voting.c does behind a call that fails under `sem_en`, where the callers
-- go on to use the freed `pid`; what a write behind an array does to the blocks and the mutex;
-- that a miner which exits by an error destroys the mutex while others use it; the files and the
-- calls that only print; and those examples of the course in P1, P2 and P3 that show one system
-- call each.
pub mod Common
pub mod Pow
pub mod Args
pub mod Mining
pub mod Miners
pub mod Network
pub mod Setup
pub mod Launch
pub mod Buffer
pub mod Report
pub mod Register
pub mod Monitor
pub mod Pipeline
pub mod Rush
pub mod Codificacion
pub mod Course
pub mod Voting
