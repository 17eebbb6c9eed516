-- ===== src/Examples.antt =====
-- The theorems at concrete inputs that meet their hypotheses, and runs of the model.
mod Workers
mod Handlers
mod Events
mod Client
mod Programs
mod Camera
mod Agent
