-- ===== src/Tests.antt =====
-- Test data, and each theorem at an input that meets its hypotheses.
mod Disk
mod Strings
mod Descriptors
mod UserPrograms
mod Boot
mod Reading
mod Devices
mod Fs
mod Files
mod Calls
mod Process
mod Kernel
mod Terminal
mod Screen
mod Misc
mod Lifecycle
mod Console
mod Text
mod Programs
