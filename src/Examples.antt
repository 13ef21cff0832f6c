-- ===== src/Examples.antt =====
-- The theorems at concrete inputs, and runs of the definitions.
mod Json
mod Postgres
mod Mysql
mod Mongodb
mod Pipeline
mod Codes
mod Schema
mod Mcp
mod Connect
mod Tree
mod Formats
