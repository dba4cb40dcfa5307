-- ===== src/Examples.antt =====
-- A concrete library under the extension, runs of the model on it, and the theorems at these runs.
pub mod Sample
pub mod Histories
mod Parts
mod Runs
pub mod Server
mod Routes
mod Departures
mod Lives
mod Flows
mod Objects
pub mod Loads
