-- ===== src/Tests.antt =====
-- Runs of the model at fixed inputs, and each property applied where its hypotheses hold.
mod Limits
mod Traces
mod Sampling
mod Collecting
mod Sending
mod Tracing
mod Requests
mod Environment
