-- ===== src/Eval.antt =====
-- app/eval: the text metrics (Text, Graphemes, Score) and the matching of boxes (Boxes).
pub mod Text
pub mod Graphemes
pub mod Score
pub mod Boxes
mod Tests
