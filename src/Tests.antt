-- ===== src/Tests.antt =====
-- Tests of the models on concrete inputs, with fixed-point numbers for `double` and bytes for the
-- process image.
mod Logic
mod Queues
mod Bus
mod Session
mod Interface
mod Cycle
mod Halting
mod Shuttle
mod Tables
mod Tracing
mod Guarded
mod Looping
mod Printing
mod Drive
mod Setup
