-- ===== src/Platform.antt =====
-- What the transform layer takes from Python's library and from pycountry as tables or algorithms
-- that the repository does not hold.
use book_data_pipeline.Base.{Text, Bool, Option}
use book_data_pipeline.Unicode.{Unicode}
use book_data_pipeline.Normalise.Language.{Languages}
use book_data_pipeline.Identity.{Digest}
use book_data_pipeline.Domain.{Decimal}

-- What `decimal.Decimal(text)` gives: not a number, an infinity, or a number with its sign.
pub data DecimalValue : Type 0 where
  nan infinite : DecimalValue
  finite : Bool → Decimal → DecimalValue

pub record Platform : Type 0 where
  pub unicode : Unicode
  pub languages : Languages
  pub sha256 : Digest
  -- `html.unescape`
  pub unescape : Text → Text
  -- `decimal.Decimal(text)`, `none` where it raises `InvalidOperation`.
  pub decimal_of : Text → Option DecimalValue
