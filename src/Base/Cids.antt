-- ===== src/Base/Cids.antt =====
-- go-cid, of which the program uses `cid.Parse` and the string form of what it returns.
use mathlib.Core.Path.{◌≡◌}
use mathlib.Core.Logic.{◌≢◌}
use mathlib.Core.Option.{Option, some}
use mathlib.Core.List.{[]}
use malt.Base.Texts.{Text, trim_space}

pub record CidCodec : Type 0 where
  -- the canonical string of the CID that a text parses to
  pub parse : Text → Option Text
  -- the string of a CID parses to that CID
  pub parse_again : (t c : Text) → parse t ≡ some c → parse c ≡ some c
  -- it has no space around it, and is not empty
  pub parse_trimmed : (t c : Text) → parse t ≡ some c → trim_space c ≡ c
  pub parse_nonempty : (t c : Text) → parse t ≡ some c → c ≢ []
