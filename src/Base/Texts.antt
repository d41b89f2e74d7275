-- ===== src/Base/Texts.antt =====
-- Go strings as the sequence of what `range` decodes: a code point below 0x110000, or 0x110000 + b
-- for a byte b that belongs to no valid encoding. The functions are those of Go's `strings`,
-- `path` and `unicode/utf8` that the program calls.
use Prim.Native.Char.{code}
use Prim.Native.Nat.{ℕ, ◌+◌, ◌-◌, ◌/◌, ◌%◌}
use Prim.Native.String.{String}
use mathlib.Core.Bool.{Bool, true, false, ◌&&◌, ◌||◌, not}
use mathlib.Core.List.{List, [], ◌∷◌, ◌++◌}
use native.Mathlib.Decide.{ℕ_discrete}
use malt.Base.Tests.{ltb, leb, if◌then◌else◌, Eq, ◌==◌, nat_eq}
use malt.Base.Lists.{length}

abbrev pub Text : Type 0
Text = List ℕ

-- The text of a literal.
abbrev pub text : String → Text
text String.[] = []
text (String.◌∷◌ c s) = code c ∷ text s

unfoldable pub Text-discrete : Discrete Text
unfolding ℕ_discrete
Text-discrete = hlevel ℕ_discrete

instance abbrev pub text_eq : Eq Text
text_eq = record { dec = Text-discrete }

abbrev pub slash : ℕ
slash = b'/'

-- unicode.IsSpace
unfoldable pub is_space : ℕ → Bool
is_space c =
    (leb 9 c && leb c 13)
    || (c == 32
        || (c == 0x85
            || (c == 0xA0
                || (c == 0x1680
                    || ((leb 0x2000 c && leb c 0x200a)
                        || (c == 0x2028
                            || (c == 0x2029 || (c == 0x202f || (c == 0x205f || c == 0x3000)))))))))

unfoldable pub trim_left : Text → Text
trim_left [] = []
trim_left (c ∷ cs) = if is_space c then trim_left cs else c ∷ cs

-- One character in front of what is left after the end was trimmed.
unfoldable pub keep_trimmed : ℕ → Text → Text
keep_trimmed c [] = if is_space c then [] else c ∷ []
keep_trimmed c (d ∷ ds) = c ∷ d ∷ ds

unfoldable pub trim_right : Text → Text
unfolding keep_trimmed
trim_right [] = []
trim_right (c ∷ cs) = keep_trimmed c (trim_right cs)

-- strings.TrimSpace
unfoldable pub trim_space : Text → Text
unfolding trim_left trim_right
trim_space t = trim_right (trim_left t)

-- utf8.ValidString
unfoldable pub valid_utf8 : Text → Bool
valid_utf8 [] = true
valid_utf8 (c ∷ cs) = ltb c 0x110000 && valid_utf8 cs

-- strings.ContainsRune
unfoldable pub contains_rune : ℕ → Text → Bool
contains_rune r [] = false
contains_rune r (c ∷ cs) = c == r || contains_rune r cs

-- strings.HasPrefix
unfoldable pub has_prefix : Text → Text → Bool
has_prefix cs [] = true
has_prefix [] (p ∷ ps) = false
has_prefix (c ∷ cs) (p ∷ ps) = c == p && has_prefix cs ps

-- strings.Contains
unfoldable pub contains : Text → Text → Bool
unfolding has_prefix
contains [] p = has_prefix [] p
contains (c ∷ cs) p = has_prefix (c ∷ cs) p || contains cs p

-- strings.HasSuffix for a suffix of one character
unfoldable pub ends_with : ℕ → Text → Bool
ends_with r [] = false
ends_with r (c ∷ []) = c == r
ends_with r (c ∷ d ∷ ds) = ends_with r (d ∷ ds)

-- The text after a prefix of the given length.
unfoldable pub drop_prefix : Text → Text → Text
drop_prefix cs [] = cs
drop_prefix [] (p ∷ ps) = []
drop_prefix (c ∷ cs) (p ∷ ps) = drop_prefix cs ps

-- strings.TrimPrefix
unfoldable pub trim_prefix : Text → Text → Text
unfolding has_prefix drop_prefix
trim_prefix cs p = if has_prefix cs p then drop_prefix cs p else cs

-- One more character in front of the first segment.
unfoldable pub extend_first : ℕ → List Text → List Text
extend_first c [] = (c ∷ []) ∷ []
extend_first c (s ∷ ss) = (c ∷ s) ∷ ss

-- strings.Split by one character: never the empty list
unfoldable pub split : ℕ → Text → List Text
unfolding extend_first
split r [] = [] ∷ []
split r (c ∷ cs) = if c == r then [] ∷ split r cs else extend_first c (split r cs)

-- strings.Join by one character
unfoldable pub join : ℕ → List Text → Text
join r [] = []
join r (s ∷ []) = s
join r (s ∷ t ∷ ts) = s ++ (r ∷ join r (t ∷ ts))

-- The UTF-8 bytes of one element.
unfoldable pub encode : ℕ → List ℕ
encode c =
    if ltb c 0x80
    then c ∷ []
    else if ltb c 0x800
    then (0xC0 + c / 64) ∷ (0x80 + c % 64) ∷ []
    else if ltb c 0x10000
    then (0xE0 + c / 4096) ∷ (0x80 + c / 64 % 64) ∷ (0x80 + c % 64) ∷ []
    else if ltb c 0x110000
    then (0xF0 + c / 262144) ∷ (0x80 + c / 4096 % 64) ∷ (0x80 + c / 64 % 64) ∷ (0x80 + c % 64) ∷ []
    else (c - 0x110000) ∷ []

unfoldable pub bytes : Text → List ℕ
unfolding encode
bytes [] = []
bytes (c ∷ cs) = encode c ++ bytes cs

-- len(s)
unfoldable pub byte_length : Text → ℕ
unfolding bytes
byte_length t = length (bytes t)

-- a < b, for strings
unfoldable pub bytes_ltb : List ℕ → List ℕ → Bool
bytes_ltb xs [] = false
bytes_ltb [] (y ∷ ys) = true
bytes_ltb (x ∷ xs) (y ∷ ys) = ltb x y || (x == y && bytes_ltb xs ys)

unfoldable pub text_ltb : Text → Text → Bool
unfolding bytes bytes_ltb
text_ltb a b = bytes_ltb (bytes a) (bytes b)

-- The stack of `path.Clean`, last segment first: `..` takes a segment off unless there is none, or
-- another `..` that stayed.
unfoldable pub clean_step : Bool → List Text → Text → List Text
clean_step rooted [] s =
    if s == text "" || s == text "." then [] else if s == text ".." && rooted then [] else s ∷ []
clean_step rooted (top ∷ stack) s =
    if s == text "" || s == text "."
    then top ∷ stack
    else if s == text ".." && not (top == text "..")
    then stack
    else s ∷ top ∷ stack

unfoldable pub clean_segments : Bool → List Text → List Text → List Text
unfolding clean_step
clean_segments rooted stack [] = stack
clean_segments rooted stack (s ∷ ss) = clean_segments rooted (clean_step rooted stack s) ss

unfoldable pub reverse_onto : List Text → List Text → List Text
reverse_onto done [] = done
reverse_onto done (s ∷ ss) = reverse_onto (s ∷ done) ss

-- path.Clean
unfoldable pub clean_path : Text → Text
unfolding clean_segments reverse_onto join split has_prefix
clean_path p =
    let rooted = has_prefix p (text "/") in
    let body = join slash (reverse_onto [] (clean_segments rooted [] (split slash p))) in
    if rooted then slash ∷ body else if body == text "" then text "." else body
