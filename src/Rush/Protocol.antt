-- ===== src/Rush/Protocol.antt =====
-- The miner and the monitor of P1/Ejercicio13 as two processes over their pipes (miner.c, monitor.c),
-- and what mrush.c prints of their ends. The threads of a round are one step of the miner here.
pub mod Ends
mod Tests
use soper.Common.{
  ℕ, zero, suc, List, [], ◌∷◌, ◌++◌, Bool, true, false, Option, none, some, ◌==◌, if◌then◌else◌,
}
use soper.Rush.{PipeData, Globals, threads, answer, Exit, success, invalidated}

-- Where `miner` stands, with `k` rounds to come behind the one it is in.
pub data MinerPc : Type 0 where
  mining : (k target : ℕ) → Globals → MinerPc  -- with `k` rounds left
  asking : (k : ℕ) → Globals → MinerPc  -- before `read(monitorPipe)`
  ended : Exit → MinerPc

-- Where `monitor` stands.
pub data MonitorPc : Type 0 where
  reading : MonitorPc  -- before `read(minerPipe)`
  answering : (resp : Bool) → MonitorPc  -- before `write(monitorPipe)`
  ended : MonitorPc

-- `printed` are the lines of the monitor: a pair, and whether it is accepted.
pub record State : Type 0 where
  pub miner : MinerPc
  pub monitor : MonitorPc
  pub miner_pipe : List PipeData
  pub monitor_pipe : List Bool
  pub printed : List (PipeData × Bool)

abbrev pub opened : ℕ → ℕ → State
opened rounds target = record {
  miner =
      mining rounds target
        (record { pipe_data = record { target = 0; solution = 0 }; magic_flag = false });
  monitor = reading;
  miner_pipe = [];
  monitor_pipe = [];
  printed = [];
}

-- The read of the answer, which waits while the pipe is empty.
unfoldable pub take_answer : ℕ → Globals → List Bool → State → State
take_answer k g [] s = s
take_answer k g (true ∷ rs) s = record s {
  miner = mining k g.pipe_data.solution (record g { magic_flag = false });
  monitor_pipe = rs;
}
take_answer k g (false ∷ rs) s = record s { miner = MinerPc.ended invalidated; monitor_pipe = rs }

unfoldable pub miner_step : ℕ → MinerPc → State → State
unfolding take_answer
miner_step n (mining zero target g) s = record s { miner = MinerPc.ended success }
miner_step n (mining (suc k) target g) s =
    let g' = threads n target n g in
    record s { miner = asking k g'; miner_pipe = s.miner_pipe ++ (g'.pipe_data ∷ []) }
miner_step n (asking k g) s = take_answer k g s.monitor_pipe s
miner_step n (MinerPc.ended e) s = s

-- A read of the empty pipe returns 0 once the miner has closed its end, and waits before that.
unfoldable pub at_eof : MinerPc → State → State
at_eof (mining k target g) s = s
at_eof (asking k g) s = s
at_eof (MinerPc.ended e) s = record s { monitor = MonitorPc.ended }

unfoldable pub take_pair : List PipeData → State → State
unfolding at_eof
take_pair [] s = at_eof s.miner s
take_pair (p ∷ ps) s = record s {
  monitor = answering (answer p);
  miner_pipe = ps;
  printed = s.printed ++ ((p, answer p) ∷ []);
}

unfoldable pub monitor_step : MonitorPc → State → State
unfolding take_pair
monitor_step reading s = take_pair s.miner_pipe s
monitor_step (answering resp) s = record s {
  monitor = reading;
  monitor_pipe = s.monitor_pipe ++ (resp ∷ []);
}
monitor_step MonitorPc.ended s = s

-- A step of the miner, or of the monitor. A process that waits does not change the state.
unfoldable pub turn : ℕ → Bool → State → State
unfolding miner_step monitor_step
turn n true s = miner_step n s.miner s
turn n false s = monitor_step s.monitor s

unfoldable pub run : ℕ → List Bool → State → State
unfolding turn
run n [] s = s
run n (who ∷ schedule) s = run n schedule (turn n who s)

-- What `wait4miner` and `wait4monitor` print: the status of a process that has exited, and the word
-- for it.
pub data Word : Type 0 where
  successful failed : Word

pub data Waited : Type 0 where
  finished : ℕ → Word → Waited
  abnormal : Waited

unfoldable pub wait_line : Option ℕ → Waited
wait_line none = abnormal
wait_line (some status) = finished status (if status == 0 then successful else failed)

-- The status that `miner` exits with.
abbrev pub exit_status : Exit → ℕ
exit_status success = 0
exit_status invalidated = 1
