-- ===== src/Tests.antt =====
-- Concrete runs: instances of the theorems, and evaluations of the definitions.
mod Data
mod Index
mod Rows
mod Codec
mod Overlay
mod Histories
mod Starting
mod Cells
mod Client
mod Steps
mod Answers
mod Gateways
