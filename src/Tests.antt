-- ===== src/Tests.antt =====
-- The components on concrete inputs, and the theorems at inputs that meet their hypotheses.
mod Sessions
mod Runs
mod Plans
mod Cases
mod Reports
mod Gates
mod Masks
mod Selections
mod Development
mod Capabilities
mod Listing
mod Lifecycle
mod Execution
mod Placeholders
mod Inputs
mod Compiler
mod Merge
