-- ===== src/Tests.antt =====
-- Runs of the model on concrete inputs, and each theorem at one.
mod Reader
mod Plan
mod Window
mod Chain
mod Sanitizer
mod Runs
mod Agents
mod Sketch
mod Library
mod Checks
mod Archive
mod Parsing
mod Telemetry
mod Running
mod Tables
