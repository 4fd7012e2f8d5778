-- ===== src/Examples.antt =====
-- Runs of the linter's parts on concrete inputs, and the theorems at inputs that meet their hypotheses.
mod Include
mod Lines
mod State
mod Files
mod Preprocessor
mod Guards
mod Nesting
mod Checks
mod Layout
