-- ===== src/Examples/Codec.antt =====
-- A codec in which every text without space around it is a CID of itself.
use mathlib.Core.Path.{subst}
use malt.Base.{
  ◌≡◌, ◌≢◌, Option, none, some, [], Text, text_eq, ◌==◌, not, ◌&&◌, if◌then◌else◌, trim_space,
  arith,
}
use malt.Base.Cids.{CidCodec}

unfoldable pub parse_plain : Text → Option Text
parse_plain t = if not (t == []) && trim_space t == t then some t else none

parsed_same : (t c : Text) → parse_plain t ≡ some c → t ≡ c
unfolding parse_plain
parsed_same t c h = ground arith

pub parsed_again : (t c : Text) → parse_plain t ≡ some c → parse_plain c ≡ some c
parsed_again t c h = subst (λ x. parse_plain x ≡ some c) (parsed_same t c h) h

pub parsed_trimmed : (t c : Text) → parse_plain t ≡ some c → trim_space c ≡ c
unfolding parse_plain
parsed_trimmed t c h = ground arith

pub parsed_nonempty : (t c : Text) → parse_plain t ≡ some c → c ≢ []
unfolding parse_plain
parsed_nonempty t c h = ground arith

instance abbrev pub plain_cids : CidCodec
plain_cids = record {
  parse = parse_plain;
  parse_again = parsed_again;
  parse_trimmed = parsed_trimmed;
  parse_nonempty = parsed_nonempty;
}
