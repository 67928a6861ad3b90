-- ===== src/Tests.antt =====
-- The theorems and the definitions at concrete inputs, one child for each part of the program.
mod Mm
mod Sched
mod Fork
mod Spawn
mod Start
mod Printf
mod Buffer
mod Build
mod Calls
mod Disk
mod Log
mod Strings
mod Segment
