-- ===== src/Bucket/Branch.antt =====
-- internal/bucketbranch/branch.go: the names of writable branches.
use malt.Base.{
  ℕ, Bool, true, not, ◌&&◌, ◌||◌, Option, none, some, List, [], ◌∷◌, ◌++◌, Text, text, text_eq,
  nat_eq, ◌==◌, leb, ltb, if◌then◌else◌, trim_space, trim_prefix, has_prefix, ends_with, contains,
  split, byte_length, slash,
}

abbrev pub main : Text
main = text "main"

abbrev pub heads : Text
heads = text "heads/"

unfoldable pub identifier_rune : ℕ → Bool
identifier_rune r =
    (leb b'a' r && leb r b'z')
    || ((leb b'A' r && leb r b'Z')
        || ((leb b'0' r && leb r b'9') || (r == b'-' || (r == b'_' || r == b'.'))))

unfoldable pub identifier_runes : Text → Bool
unfolding identifier_rune
identifier_runes [] = true
identifier_runes (r ∷ rs) = identifier_rune r && identifier_runes rs

unfoldable pub valid_identifier : Text → Bool
unfolding identifier_runes
valid_identifier value =
    not (value == []) && (leb (byte_length value) 128 && identifier_runes value)

unfoldable pub valid_segments : List Text → Bool
unfolding valid_identifier
valid_segments [] = true
valid_segments (s ∷ ss) = valid_identifier s && valid_segments ss

-- The name of a branch without its optional namespace.
unfoldable pub valid_branch : Text → Bool
unfolding valid_segments
valid_branch name =
    not (
      name == []
      || (name == main
          || (has_prefix name (text "conflicts/")
              || (ltb 128 (byte_length name)
                  || (has_prefix name (text "/")
                      || (ends_with slash name || contains name (text "..")))))))
    && valid_segments (split slash name)

-- `none` is the error.
unfoldable pub normalize_explicit : Text → Option Text
unfolding valid_branch
normalize_explicit raw =
    let name = trim_prefix (trim_space raw) heads in
    if valid_branch name
    then (if has_prefix name heads then some (heads ++ name) else some name)
    else none

unfoldable pub normalize_selector : Text → Option Text
unfolding normalize_explicit
normalize_selector raw =
    let name = trim_space raw in
    if name == [] || name == main then some main else normalize_explicit name

unfoldable pub ref_name : Text → Option Text
unfolding normalize_selector
ref_name raw = elim (normalize_selector raw) [
  | none ↦ none
  | some selector ↦
      if selector == main then some main else some (heads ++ trim_prefix selector heads)
]
