-- ===== src/Examples.antt =====
-- Concrete packets, flows, rules, messages, captures and threads, and what the theorems say of
-- them.
mod Flows
mod Messages
mod Filters
mod Captures
mod Threads
mod Totals
