-- ===== src/Sorter.antt =====
-- static/js/parser-duration.js and static/js/parser-metric.js: the parsers that turn the cells of the
-- site's tables into sort keys. The table sorter that calls them is outside.
pub mod Padding
pub mod Duration
pub mod Countdown
pub mod Metric
pub mod Parsers
mod Tests
