-- ===== src/Charting.antt =====
-- static/js/isitsql-charting-1.0.js: the charts of a server's page. A function that draws a chart
-- asks the server for the series and hands Chart.js a configuration; what it does to the page is a
-- list of effects, in the order in which they happen. Chart.js, jQuery and the page are outside;
-- `lodash.merge` is a parameter.
pub mod Options
pub mod Series
pub mod Charts
pub mod Laws
mod Tests
