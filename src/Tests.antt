-- ===== src/Tests.antt =====
-- Runs of the model at concrete inputs, and the theorems at inputs that meet their hypotheses.
mod Shell
mod Imsg
mod Manager
mod Exec
mod Watches
mod Forward
mod Copies
mod Accepts
mod Server
mod CommandLine
mod Persist
mod Ssh
mod SocketPath
mod Dial
mod Transfer
mod Main
mod Lifecycle
mod Upload
