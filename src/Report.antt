-- ===== src/Report.antt =====
-- A call of the error handler that the checks are given: `error(filename, linenum, category,
-- confidence, message)`. A check is modelled with the calls that it makes, in order.
use falcon_link.Prelude.{ℕ, codes, Text}
use Prim.Native.String.{String}

pub record Report : Type 0 where
  pub filename : Text
  pub linenum : ℕ
  pub category : Text
  pub confidence : ℕ
  pub message : Text

abbrev pub report : Text → ℕ → String → ℕ → Text → Report
report filename linenum category confidence message = record {
  filename = filename;
  linenum = linenum;
  category = codes category;
  confidence = confidence;
  message = message;
}
