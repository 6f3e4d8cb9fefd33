-- ===== src/Tests.antt =====
-- Runs of the definitions on concrete input, and the theorems at inputs that meet their hypotheses.
mod Texts
mod World
mod Cycle
mod Loops
mod Requests
mod Pane
mod Answers
mod Drive
mod Page
mod Session
mod Panel
