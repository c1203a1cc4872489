-- ===== src/Mission.antt =====
-- One task from the queue to an unverified claim (config/executor.py), and the packets of missions
-- (config/mission_packet.py).
pub mod Executor
pub mod Claims
pub mod Settled
pub mod Tests
