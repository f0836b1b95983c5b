-- ===== src/Tests.antt =====
-- Concrete runs: the theorems about the code applied to small tables, requests, rings and options.
mod Cluster
mod Servers
mod Clients
mod Cat
mod Dumps
mod Commands
mod Lifetimes
mod Logs
mod Successor
mod Data
mod Tables
mod Requests
mod Rings
mod Options
mod Addresses
mod Programs
