-- ===== src/Tests.antt =====
-- Runs of the model on concrete inputs, and the theorems at inputs that meet their hypotheses.
mod Device
mod Server
mod Serial
mod Balance
mod Network
mod Text
mod Patrol
mod Reload
mod Rate
mod Served
mod Threads
mod Open
mod Output
mod SystemTime
mod Monitor
mod SerialToPc
mod TestPrograms
mod Database
mod Sql
