-- ===== src/Tests.antt =====
-- Tests and examples on a small machine.
mod Machine
mod Arguments
mod Scheduling
mod Pipes
mod Files
mod Processes
mod Mutexes
mod Nodes
mod Sockets
mod Table
mod Vm
mod Booting
mod Shell
