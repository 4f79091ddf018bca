-- ===== src/Protocol.antt =====
-- search_cup/protocol_v23.py, v23_schema.py and v23_accounting.py: the SEARCH-CUP v2.3 protocol.
pub mod Numbers
pub mod Schema
pub mod Shapes
pub mod Safety
pub mod Measure
pub mod Event
pub mod Ledger
pub mod Seal
pub mod Receipt
pub mod Controls
pub mod Spec
pub mod Pool
pub mod Package
pub mod Record
pub mod Journal
pub mod Gate
pub mod Compare
mod Tests
