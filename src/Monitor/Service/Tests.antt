-- ===== src/Monitor/Service/Tests.antt =====
-- A run in which the checker is interrupted while it waits for a block.
use soper.Common.{replicate, refl}
use soper.Miners.{blank}
use soper.Network.{Block, raw_block}
use soper.Monitor.Service.{Service, Reach, here, next, opened, find_system, receive_failed}

abbrev old : Block
old = raw_block (replicate 100 blank)

abbrev broken : (s : Service) × Reach opened s
broken = (_, next (next here (find_system refl)) (receive_failed refl))
