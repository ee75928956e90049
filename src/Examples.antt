-- ===== src/Examples.antt =====
-- Concrete runs of the model, and the theorems at concrete inputs.
mod Instances
mod Stores
mod Searches
mod Tables
mod Changes
mod Training
mod Keys
mod Service
mod Terminal
mod Connections
