-- ===== src/Tests.antt =====
-- Tests: small runs of the model, and the theorems at concrete inputs.
mod Tree
mod Diagram
mod Text
mod Command
mod Canvas
mod Draw
mod Tracer
mod View
mod Options
mod Interface
mod Scroll
mod Built
