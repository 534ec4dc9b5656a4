-- ===== src/Tests.antt =====
-- Runs of the operations on concrete inputs.
mod Ids
mod Infos
mod Arrays
mod Tables
mod Texts
mod Services
mod Nodes
mod Messages
