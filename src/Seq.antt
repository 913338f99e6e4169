-- ===== src/Seq.antt =====
-- WebSharper.Seq of
-- GlutenFree.OddJob.Manager.Presentation.WS/Scripts/WebSharper/WebSharper.Main.js. A sequence is the
-- list of the items that its enumerator gives when it is read to the end: `MoveNext` and `Current`
-- take the head, disposal leaves no trace. A thrown exception is `none`.
pub mod Loops
pub mod Slices
pub mod Extremes
pub mod Searches
pub mod Windows
pub mod Splits
mod Examples
