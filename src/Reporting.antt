-- ===== src/Reporting.antt =====
-- control-plane/reporting: what is kept and printed of a run.
pub mod Csv
pub mod Views
pub mod Html
pub mod SitePacket
