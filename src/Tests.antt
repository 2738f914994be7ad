-- ===== src/Tests.antt =====
-- Runs at concrete inputs: a small file system image, three terminals, the devices.
mod Image
mod Terminals
mod Devices
mod Blocks
mod Processes
mod Programs
mod Boot
mod Numbers
mod Syserr
mod Commands
mod Pong
